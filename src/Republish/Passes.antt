-- ===== src/Republish/Passes.antt =====
-- What a pass leaves, and until when the thread sleeps
-- (Peer/NetworkUnit/ServerComm/DataRepublish/DataRepublish.cpp).
use gitabic.Base.{
  ℕ, ◌+◌, ◌-◌, ◌*◌, ◌∙◌, ◌≤◌, ◌≡◌, refl, sym, subst, ap, Bool, true, false, ltb, ltb→lt, ltb→le,
  ◌==◌, if◌then◌else◌, Bool-cases, inl, inr, ==_iff, [], ◌∷◌, Option, none, some, lookup, All,
  arith,
}
use gitabic.Republish.{
  ten_minutes, Saved, SavedData, republish_entry, republish_pass, closest_due, sleep_time,
}

-- No entry is due before the time.
abbrev pub NoneDue : ℕ → SavedData → Type 0
NoneDue time s = All (λ e. time ≤ e.1.due_at) s

republish_entry_due :
    (now : ℕ) (stored : Bool) (e : Saved) → now ≤ (republish_entry now stored e).due_at
unfolding republish_entry
republish_entry_due now stored e = elim (Bool-cases (ltb e.due_at now)) [
  | inl due ↦ rw due (omega arith)
  | inr later ↦ rw later (ltb→le _ _ later)
]

republish_pass-NoneDue :
    (now : ℕ) (stored : ℕ → Bool) (s : SavedData) → NoneDue now (republish_pass now stored s)
unfolding republish_pass
republish_pass-NoneDue now stored [] = tt
republish_pass-NoneDue now stored ((file, e) ∷ s) =
    (republish_entry_due now (stored file) e, republish_pass-NoneDue now stored s)

lookup-republish_pass :
    (now : ℕ) (stored : ℕ → Bool) (s : SavedData) (file : ℕ)
    → lookup file (republish_pass now stored s) ≡ (elim (lookup file s) as (λ _. Option Saved) [
      | none ↦ none
      | some e ↦ some (republish_entry now (stored file) e)
    ])
unfolding republish_pass
lookup-republish_pass now stored [] file = refl
lookup-republish_pass now stored ((j, e) ∷ s) file = elim (Bool-cases (j == file)) [
  | inl here ↦
      let same : j ≡ file = (==_iff j file).0 here in
      rw here (ap (λ k. some (republish_entry now (stored k) e)) same)
  | inr other ↦ rw other (lookup-republish_pass now stored s file)
]

closest_due-le : (c : ℕ) (s : SavedData) → closest_due c s ≤ c
unfolding closest_due
closest_due-le c [] = omega arith
closest_due-le c ((file, e) ∷ s) = elim (Bool-cases (ltb e.due_at c)) [
  | inl near ↦ rw near (omega (arith, closest_due-le e.due_at s, ltb→lt _ _ near))
  | inr far ↦ rw far (closest_due-le c s)
]

closest_due_near :
    (c file : ℕ) (e : Saved) (s : SavedData)
    → ltb e.due_at c ≡ true
    → closest_due c ((file, e) ∷ s) ≡ closest_due e.due_at s
unfolding closest_due
closest_due_near c file e s near = ap (λ b. closest_due (if b then e.due_at else c) s) near

closest_due_far :
    (c file : ℕ) (e : Saved) (s : SavedData)
    → ltb e.due_at c ≡ false
    → closest_due c ((file, e) ∷ s) ≡ closest_due c s
unfolding closest_due
closest_due_far c file e s far = ap (λ b. closest_due (if b then e.due_at else c) s) far

closest_due-NoneDue : (c : ℕ) (s : SavedData) → NoneDue (closest_due c s) s
closest_due-NoneDue c [] = tt
closest_due-NoneDue c ((file, e) ∷ s) = elim (Bool-cases (ltb e.due_at c)) [
  | inl near ↦
      subst (λ k. NoneDue k ((file, e) ∷ s)) (sym (closest_due_near c file e s near))
        (closest_due-le e.due_at s, closest_due-NoneDue e.due_at s)
  | inr far ↦
      subst (λ k. NoneDue k ((file, e) ∷ s)) (sym (closest_due_far c file e s far))
        ((omega (arith, closest_due-le c s, ltb→le _ _ far)), closest_due-NoneDue c s)
]

closest_due-ge : (now c : ℕ) (s : SavedData) → now ≤ c → NoneDue now s → now ≤ closest_due c s
unfolding closest_due
closest_due-ge now c [] h all = h
closest_due-ge now c ((file, e) ∷ s) h all = elim (Bool-cases (ltb e.due_at c)) [
  | inl near ↦ rw near (closest_due-ge now e.due_at s all.0 all.1)
  | inr far ↦ rw far (closest_due-ge now c s h all.1)
]

awake :
    (now : ℕ) (s : SavedData)
    → NoneDue now s
    → NoneDue (now + sleep_time now s) s × (sleep_time now s ≤ ten_minutes)
unfolding sleep_time
awake now [] h = (tt, omega arith)
awake now (e ∷ s) h =
    let low = closest_due-ge now (now + ten_minutes) (e ∷ s) (omega arith) h in
    let high = closest_due-le (now + ten_minutes) (e ∷ s) in
    let back : now + (closest_due (now + ten_minutes) (e ∷ s) - now)
        ≡ closest_due (now + ten_minutes) (e ∷ s) =
      omega (arith, low) in
    (
      subst (λ k. NoneDue k (e ∷ s)) (sym back) (closest_due-NoneDue (now + ten_minutes) (e ∷ s)),
      omega (arith, high),
    )

-- When an entry is due after a pass.
next_due : ℕ → Bool → Saved → ℕ
next_due now stored e =
    if ltb e.due_at now then now + (if stored then 10 * 60 else 10) else e.due_at

republish_entry-next_due :
    (now : ℕ) (stored : Bool) (e : Saved)
    → republish_entry now stored e ≡ record { my_id = e.my_id; due_at = next_due now stored e }
unfolding republish_entry next_due
republish_entry-next_due now stored e = elim (Bool-cases (ltb e.due_at now)) [
  | inl due ↦ rw due refl
  | inr waits ↦ rw waits refl
]

-- A pass at a time: an entry that was due is due again ten minutes later if the server has stored it, and
-- ten seconds later if not, under the same ID, and every other entry is as it was; the thread then sleeps
-- for ten minutes at most, and no entry is due before it wakes.
pub republish_pass_lem :
    (now : ℕ) (stored : ℕ → Bool) (s : SavedData) (file : ℕ)
    → let t = republish_pass now stored s in
      (lookup file t ≡ (elim (lookup file s) as (λ _. Option Saved) [
        | none ↦ none
        | some e ↦ some (record {
          my_id = e.my_id;
          due_at =
              if ltb e.due_at now then now + (if stored file then 10 * 60 else 10) else e.due_at;
        })
      ]))
      × NoneDue (now + sleep_time now t) t
      × (sleep_time now t ≤ 10 * 60)
unfolding next_due
republish_pass_lem now stored s file =
    let (none_due, short) =
      awake now (republish_pass now stored s) (republish_pass-NoneDue now stored s) in
    let written = λ (o : Option Saved).
      elim o
        as (λ o.
          (elim o as (λ _. Option Saved) [
            | none ↦ none
            | some e ↦ some (republish_entry now (stored file) e)
          ])
          ≡ (elim o as (λ _. Option Saved) [
            | none ↦ none
            | some e ↦ some (record { my_id = e.my_id; due_at = next_due now (stored file) e })
          ])) [ none ↦ refl | some e ↦ ap some (republish_entry-next_due now (stored file) e) ] in
    (lookup-republish_pass now stored s file ∙ written (lookup file s), none_due, short)
