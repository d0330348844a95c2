-- ===== src/Aes/Columns.antt =====
-- The columns of a block: mixColumnsInv undoes mixColumns, and the rows turn back
-- (Peer/Encryptions/AES/AESHandler.cpp).
use gitabic.Base.{Bool, ◌&&◌, ◌*◌, ℕ, ◌<◌, ◌≡◌, refl, ap, ◌∙◌, true, ◌==◌, arith}
use gitabic.Base.Xor.{◌⊻◌, bit_xor-lt, bit_xor_swap, bit_xor-zero, zero-bit_xor}
use gitabic.Aes.{
  Word, word, Matrix4x4, matrix, transpose, map_rows, mix_column, mix_column_inv, mix_columns,
  mix_columns_inv,
}
use gitabic.Aes.Tables.{mul2, mul3, mul9, mul11, mul13, mul14}
use gitabic.Aes.Linear.{
  all_below, all_below_holds, IsLinear, mul9-IsLinear, mul11-IsLinear, mul13-IsLinear,
  mul14-IsLinear, products-lt,
}

abbrev sum4 : ℕ → ℕ → ℕ → ℕ → ℕ
sum4 a b c d = a ⊻ b ⊻ c ⊻ d

-- The sum of four sums, row by row or column by column.
sum4_transposed :
    (a0 a1 a2 a3 b0 b1 b2 b3 c0 c1 c2 c3 d0 d1 d2 d3 : ℕ)
    → sum4 (sum4 a0 a1 a2 a3) (sum4 b0 b1 b2 b3) (sum4 c0 c1 c2 c3) (sum4 d0 d1 d2 d3)
      ≡ sum4 (sum4 a0 b0 c0 d0) (sum4 a1 b1 c1 d1) (sum4 a2 b2 c2 d2) (sum4 a3 b3 c3 d3)
sum4_transposed a0 a1 a2 a3 b0 b1 b2 b3 c0 c1 c2 c3 d0 d1 d2 d3 =
    ap (λ t. t ⊻ sum4 c0 c1 c2 c3 ⊻ sum4 d0 d1 d2 d3) (two a0 a1 a2 a3 b0 b1 b2 b3)
    ∙ ap (λ t. t ⊻ sum4 d0 d1 d2 d3) (two (a0 ⊻ b0) (a1 ⊻ b1) (a2 ⊻ b2) (a3 ⊻ b3) c0 c1 c2 c3)
    ∙ two (a0 ⊻ b0 ⊻ c0) (a1 ⊻ b1 ⊻ c1) (a2 ⊻ b2 ⊻ c2) (a3 ⊻ b3 ⊻ c3) d0 d1 d2 d3
  where
    two :
        (x0 x1 x2 x3 y0 y1 y2 y3 : ℕ)
        → sum4 x0 x1 x2 x3 ⊻ sum4 y0 y1 y2 y3 ≡ sum4 (x0 ⊻ y0) (x1 ⊻ y1) (x2 ⊻ y2) (x3 ⊻ y3)
    two x0 x1 x2 x3 y0 y1 y2 y3 =
        bit_xor_swap (x0 ⊻ x1 ⊻ x2) x3 (y0 ⊻ y1 ⊻ y2) y3
        ∙ ap (λ t. t ⊻ (x3 ⊻ y3))
            (bit_xor_swap (x0 ⊻ x1) x2 (y0 ⊻ y1) y2
              ∙ ap (λ t. t ⊻ (x2 ⊻ y2)) (bit_xor_swap x0 x1 y0 y1))

IsLinear-sum4 :
    (f : ℕ → ℕ)
    → IsLinear f
    → (a b c d : ℕ) → a < 256
    → b < 256
    → c < 256
    → d < 256
    → f (sum4 a b c d) ≡ sum4 (f a) (f b) (f c) (f d)
IsLinear-sum4 f lin a b c d p q r s =
    lin (a ⊻ b ⊻ c) d (bit_xor-lt _ c (bit_xor-lt a b p q) r) s
    ∙ ap (λ t. t ⊻ f d) (lin (a ⊻ b) c (bit_xor-lt a b p q) r ∙ ap (λ t. t ⊻ f c) (lin a b p q))

-- A row of the inverse, with the products `f0` to `f3`, at a mixed column, and the part that each
-- byte of the column has in it.
module _ (f0 f1 f2 f3 : ℕ → ℕ) where
  abbrev row : ℕ → ℕ → ℕ → ℕ → ℕ
  row t0 t1 t2 t3 = sum4 (f0 t0) (f1 t1) (f2 t2) (f3 t3)

  abbrev mixed_row : ℕ → ℕ → ℕ → ℕ → ℕ
  mixed_row s0 s1 s2 s3 =
      row (sum4 (mul2 s0) (mul3 s1) s2 s3) (sum4 s0 (mul2 s1) (mul3 s2) s3)
        (sum4 s0 s1 (mul2 s2) (mul3 s3)) (sum4 (mul3 s0) s1 s2 (mul2 s3))

  part0 : ℕ → ℕ
  part0 s = row (mul2 s) s s (mul3 s)

  part1 : ℕ → ℕ
  part1 s = row (mul3 s) (mul2 s) s s

  part2 : ℕ → ℕ
  part2 s = row s (mul3 s) (mul2 s) s

  part3 : ℕ → ℕ
  part3 s = row s s (mul3 s) (mul2 s)

  -- One part gives the byte back and the other three vanish.
  parts_tried : ℕ → ℕ → ℕ → ℕ → Bool
  parts_tried k0 k1 k2 k3 =
      all_below 256
        λ s. (part0 s == k0 * s && part1 s == k1 * s) && (part2 s == k2 * s && part3 s == k3 * s)

  module _ (l0 : IsLinear f0) (l1 : IsLinear f1) (l2 : IsLinear f2) (l3 : IsLinear f3) where
    mixed_row_parts :
        (s0 s1 s2 s3 : ℕ)
        → s0 < 256
        → s1 < 256
        → s2 < 256
        → s3 < 256
        → mixed_row s0 s1 s2 s3 ≡ sum4 (part0 s0) (part1 s1) (part2 s2) (part3 s3)
    unfolding part0 part1 part2 part3
    mixed_row_parts s0 s1 s2 s3 p0 p1 p2 p3 =
        let q0 = products-lt s0 p0 in
        let q1 = products-lt s1 p1 in
        let q2 = products-lt s2 p2 in
        let q3 = products-lt s3 p3 in
        rw
          (
            IsLinear-sum4 f0 l0 (mul2 s0) (mul3 s1) s2 s3 q0.0 q1.1 p2 p3,
            IsLinear-sum4 f1 l1 s0 (mul2 s1) (mul3 s2) s3 p0 q1.0 q2.1 p3,
            IsLinear-sum4 f2 l2 s0 s1 (mul2 s2) (mul3 s3) p0 p1 q2.0 q3.1,
            IsLinear-sum4 f3 l3 (mul3 s0) s1 s2 (mul2 s3) q0.1 p1 p2 q3.0,
          )
          (sum4_transposed _ _ _ _ _ _ _ _ _ _ _ _ _ _ _ _)

    mixed_row_lem :
        (k0 k1 k2 k3 s0 s1 s2 s3 : ℕ)
        → parts_tried k0 k1 k2 k3 ≡ true
        → s0 < 256
        → s1 < 256
        → s2 < 256
        → s3 < 256
        → mixed_row s0 s1 s2 s3 ≡ sum4 (k0 * s0) (k1 * s1) (k2 * s2) (k3 * s3)
    unfolding parts_tried
    mixed_row_lem k0 k1 k2 k3 s0 s1 s2 s3 done p0 p1 p2 p3 =
        let e0 : part0 s0 ≡ k0 * s0 = ground (arith, all_below_holds 256 _ s0 done p0) in
        let e1 : part1 s1 ≡ k1 * s1 = ground (arith, all_below_holds 256 _ s1 done p1) in
        let e2 : part2 s2 ≡ k2 * s2 = ground (arith, all_below_holds 256 _ s2 done p2) in
        let e3 : part3 s3 ≡ k3 * s3 = ground (arith, all_below_holds 256 _ s3 done p3) in
        mixed_row_parts s0 s1 s2 s3 p0 p1 p2 p3 ∙ rw (e0, e1, e2, e3)

row0_tried : parts_tried mul14 mul11 mul13 mul9 1 0 0 0 ≡ true
unfolding parts_tried part0 part1 part2 part3 all_below mul2 mul3 mul9 mul11 mul13 mul14
row0_tried = refl

row1_tried : parts_tried mul9 mul14 mul11 mul13 0 1 0 0 ≡ true
unfolding parts_tried part0 part1 part2 part3 all_below mul2 mul3 mul9 mul11 mul13 mul14
row1_tried = refl

row2_tried : parts_tried mul13 mul9 mul14 mul11 0 0 1 0 ≡ true
unfolding parts_tried part0 part1 part2 part3 all_below mul2 mul3 mul9 mul11 mul13 mul14
row2_tried = refl

row3_tried : parts_tried mul11 mul13 mul9 mul14 0 0 0 1 ≡ true
unfolding parts_tried part0 part1 part2 part3 all_below mul2 mul3 mul9 mul11 mul13 mul14
row3_tried = refl

zero_times : (x : ℕ) → 0 * x ≡ 0
zero_times x = omega arith

one_times : (x : ℕ) → 1 * x ≡ x
one_times x = omega arith

abbrev pub IsBytesWord : Word → Type 0
IsBytesWord (word a b c d) = (a < 256) × (b < 256) × (c < 256) × (d < 256)

abbrev pub IsBytesMatrix : Matrix4x4 → Type 0
IsBytesMatrix (matrix r0 r1 r2 r3) =
    IsBytesWord r0 × IsBytesWord r1 × IsBytesWord r2 × IsBytesWord r3

mix_column_inv-mix_column : (w : Word) → IsBytesWord w → mix_column_inv (mix_column w) ≡ w
unfolding mix_column mix_column_inv
mix_column_inv-mix_column (word s0 s1 s2 s3) (p0, p1, p2, p3) =
    let e0 =
      mixed_row_lem mul14 mul11 mul13 mul9 mul14-IsLinear mul11-IsLinear mul13-IsLinear
        mul9-IsLinear 1 0 0 0 s0 s1 s2 s3 row0_tried p0 p1 p2 p3 in
    let e1 =
      mixed_row_lem mul9 mul14 mul11 mul13 mul9-IsLinear mul14-IsLinear mul11-IsLinear
        mul13-IsLinear 0 1 0 0 s0 s1 s2 s3 row1_tried p0 p1 p2 p3 in
    let e2 =
      mixed_row_lem mul13 mul9 mul14 mul11 mul13-IsLinear mul9-IsLinear mul14-IsLinear
        mul11-IsLinear 0 0 1 0 s0 s1 s2 s3 row2_tried p0 p1 p2 p3 in
    let e3 =
      mixed_row_lem mul11 mul13 mul9 mul14 mul11-IsLinear mul13-IsLinear mul9-IsLinear
        mul14-IsLinear 0 0 0 1 s0 s1 s2 s3 row3_tried p0 p1 p2 p3 in
    rw (e0, e1, e2, e3) (simp (zero_times, one_times, bit_xor-zero, zero-bit_xor))

mix_column-IsBytesWord : (w : Word) → IsBytesWord w → IsBytesWord (mix_column w)
unfolding mix_column
mix_column-IsBytesWord (word s0 s1 s2 s3) (p0, p1, p2, p3) =
    let q0 = products-lt s0 p0 in
    let q1 = products-lt s1 p1 in
    let q2 = products-lt s2 p2 in
    let q3 = products-lt s3 p3 in
    (
      sum4-lt q0.0 q1.1 p2 p3,
      sum4-lt p0 q1.0 q2.1 p3,
      sum4-lt p0 p1 q2.0 q3.1,
      sum4-lt q0.1 p1 p2 q3.0,
    )
  where
    sum4-lt : {a b c d : ℕ} → a < 256 → b < 256 → c < 256 → d < 256 → sum4 a b c d < 256
    sum4-lt p q r s = bit_xor-lt _ _ (bit_xor-lt _ _ (bit_xor-lt _ _ p q) r) s

transpose-IsBytesMatrix : (m : Matrix4x4) → IsBytesMatrix m → IsBytesMatrix (transpose m)
transpose-IsBytesMatrix
      (matrix (word a0 a1 a2 a3) (word b0 b1 b2 b3) (word c0 c1 c2 c3) (word d0 d1 d2 d3)) h =
    omega arith

transpose-transpose : (m : Matrix4x4) → transpose (transpose m) ≡ m
transpose-transpose
      (matrix (word a0 a1 a2 a3) (word b0 b1 b2 b3) (word c0 c1 c2 c3) (word d0 d1 d2 d3)) =
    refl

mix_rows-IsBytesMatrix : (m : Matrix4x4) → IsBytesMatrix m → IsBytesMatrix (map_rows mix_column m)
mix_rows-IsBytesMatrix (matrix r0 r1 r2 r3) (p0, p1, p2, p3) = (
  mix_column-IsBytesWord r0 p0,
  mix_column-IsBytesWord r1 p1,
  mix_column-IsBytesWord r2 p2,
  mix_column-IsBytesWord r3 p3,
)

mix_rows_undone :
    (m : Matrix4x4) → IsBytesMatrix m → map_rows mix_column_inv (map_rows mix_column m) ≡ m
mix_rows_undone (matrix r0 r1 r2 r3) (p0, p1, p2, p3) = rw (
  mix_column_inv-mix_column r0 p0,
  mix_column_inv-mix_column r1 p1,
  mix_column_inv-mix_column r2 p2,
  mix_column_inv-mix_column r3 p3,
)

pub mix_columns-IsBytesMatrix : (m : Matrix4x4) → IsBytesMatrix m → IsBytesMatrix (mix_columns m)
unfolding mix_columns
mix_columns-IsBytesMatrix m h =
    transpose-IsBytesMatrix _ (mix_rows-IsBytesMatrix _ (transpose-IsBytesMatrix m h))

pub mix_columns_inv-mix_columns :
    (m : Matrix4x4) → IsBytesMatrix m → mix_columns_inv (mix_columns m) ≡ m
unfolding mix_columns mix_columns_inv
mix_columns_inv-mix_columns m h =
    rw
      (
        transpose-transpose (map_rows mix_column (transpose m)),
        mix_rows_undone (transpose m) (transpose-IsBytesMatrix m h),
      )
      (transpose-transpose m)
