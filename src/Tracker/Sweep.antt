-- ===== src/Tracker/Sweep.antt =====
-- The clean-up thread of the tracker, removeOldData: what a turn leaves, and when the next one is.
use gitabic.Base.{
  filterb, ◌≡◌, true, false, refl, ℕ, ◌+◌, ◌-◌, ◌≤◌, ltb, [], ◌∷◌, arith, Bool-cases, inl, inr, ◌⊎◌,
  ltb→lt, ltb→le,
}
use gitabic.Tracker.{Announcement, Store, ten_minutes, remove_expired, closest_expiry, sleep_time}

-- Every entry expires at `b` or later.
pub NotBefore : ℕ → Store → Type 0
NotBefore b [] = Unit
NotBefore b ((t, a) ∷ s) = (b ≤ t) × NotBefore b s

closest_expiry_bound : (c : ℕ) (s : Store) → closest_expiry c s ≤ c
unfolding closest_expiry
closest_expiry_bound c [] = omega arith
closest_expiry_bound c ((t, a) ∷ s) = elim (Bool-cases (ltb t c)) [
  | inl h ↦ rw h (omega (arith, ltb→lt t c h, closest_expiry_bound t s))
  | inr h ↦ rw h (closest_expiry_bound c s)
]

NotBefore-weaken : (b c : ℕ) (s : Store) → b ≤ c → NotBefore c s → NotBefore b s
unfolding NotBefore
NotBefore-weaken b c [] h a = tt
NotBefore-weaken b c ((t, v) ∷ s) h a = (omega (arith, h, a.0), NotBefore-weaken b c s h a.1)

closest_sooner :
    (c t : ℕ) (a : Announcement) (s : Store)
    → ltb t c ≡ true
    → closest_expiry c ((t, a) ∷ s) ≡ closest_expiry t s
unfolding closest_expiry
closest_sooner c t a s h = rw h refl

closest_later :
    (c t : ℕ) (a : Announcement) (s : Store)
    → ltb t c ≡ false
    → closest_expiry c ((t, a) ∷ s) ≡ closest_expiry c s
unfolding closest_expiry
closest_later c t a s h = rw h refl

le_cases : (a b : ℕ) → (a ≤ b) ⊎ (b ≤ a)
le_cases a b = ground arith

closest_expiry-NotBefore : (c : ℕ) (s : Store) → NotBefore (closest_expiry c s) s
unfolding NotBefore
closest_expiry-NotBefore c [] = tt
closest_expiry-NotBefore c ((t, a) ∷ s) = elim (Bool-cases (ltb t c)) [
  | inl h ↦
      let same = closest_sooner c t a s h in
      (
        omega (arith, same, closest_expiry_bound t s),
        NotBefore-weaken _ (closest_expiry t s) s (omega (arith, same))
            (closest_expiry-NotBefore t s),
      )
  | inr h ↦
      let same = closest_later c t a s h in
      (
        omega (arith, same, ltb→le t c h, closest_expiry_bound c s),
        NotBefore-weaken _ (closest_expiry c s) s (omega (arith, same))
            (closest_expiry-NotBefore c s),
      )
]

remove_expired-NotBefore : (now : ℕ) (s : Store) → NotBefore now (remove_expired now s)
unfolding remove_expired NotBefore
remove_expired-NotBefore now [] = tt
remove_expired-NotBefore now ((t, a) ∷ s) = elim (Bool-cases (ltb t now)) [
  | inl h ↦ rw (h, filterb) (remove_expired-NotBefore now s)
  | inr h ↦ rw (h, filterb) (ltb→le t now h, remove_expired-NotBefore now s)
]

-- The clean-up sleeps for at least a second, and for ten minutes at most.
sleep_time_bounds :
    (now : ℕ) (s : Store) → (1 ≤ sleep_time now s) × (sleep_time now s ≤ ten_minutes)
unfolding sleep_time
sleep_time_bounds now [] = (omega arith, omega arith)
sleep_time_bounds now (e ∷ s) =
    let bound = closest_expiry_bound (now + ten_minutes) (e ∷ s) in
    (omega arith, omega (arith, bound))

sleep_time-NotBefore :
    (now : ℕ) (kept : Store) → NotBefore now kept → NotBefore (now + sleep_time now kept - 1) kept
unfolding sleep_time NotBefore
sleep_time-NotBefore now [] a = tt
sleep_time-NotBefore now (e ∷ kept) a =
    let closest : ℕ = closest_expiry (now + ten_minutes) (e ∷ kept) in
    elim (le_cases closest now) [
      | inl early ↦ NotBefore-weaken _ now (e ∷ kept) (omega (arith, early)) a
      | inr late ↦
          NotBefore-weaken _ closest (e ∷ kept) (omega (arith, late))
            (closest_expiry-NotBefore (now + ten_minutes) (e ∷ kept))
    ]

-- At the next turn of the clean-up no entry that this turn left has been expired for more than a
-- second.
pub remove_expired_fresh :
    (now : ℕ) (s : Store)
    → let kept : Store = remove_expired now s in NotBefore (now + sleep_time now kept - 1) kept
remove_expired_fresh now s =
    sleep_time-NotBefore now (remove_expired now s) (remove_expired-NotBefore now s)
