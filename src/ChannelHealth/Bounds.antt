-- ===== src/ChannelHealth/Bounds.antt =====
-- How much a channel's list of observations can grow.
use kubeclaw.Prelude.{
  ℕ, zero, suc, ◌-◌, ◌≤◌, List, [], ◌∷◌, ltb, length, filter, if◌then◌else◌, ◌≡◌, refl, arith,
}
use kubeclaw.ChannelHealth.{Observation, in_window, drop, snoc, kept_with}

length-drop : {A : Type 0} (n : ℕ) (xs : List A) → length (drop n xs) ≡ length xs - n
length-drop zero xs = omega arith
length-drop (suc n) [] = omega arith
length-drop (suc n) (x ∷ xs) = omega (arith, length-drop n xs)

length-snoc : {A : Type 0} (xs : List A) (a : A) → length (snoc xs a) ≡ suc (length xs)
length-snoc [] a = refl
length-snoc (x ∷ xs) a = omega (arith, length-snoc xs a)

-- A channel holds at most 257 observations after one is recorded, however many it held.
pub length-kept_with :
    (window now : ℕ) (o : Observation) (list : List Observation)
    → length (kept_with window now o list) ≤ 257
unfolding kept_with
length-kept_with window now o list =
    let kept = filter (in_window window now) list in
    let tail : List Observation =
      if ltb 256 (length kept) then drop (length kept - 256) kept else kept in
    omega (arith, length-snoc tail o, short kept)
  where
    short :
        (kept : List Observation)
        → length (if ltb 256 (length kept) then drop (length kept - 256) kept else kept) ≤ 256
    short kept = ground (arith, length-drop (length kept - 256) kept)
