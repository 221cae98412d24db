-- ===== src/Companion/Delay.antt =====
-- What the buffer holds after a push, and what a reader is given.
use silo_plugin_dispatcharr.Base.{
  ℕ, zero, suc, ◌+◌, ◌-◌, ◌*◌, ◌≤◌, ◌<◌, String, ◌≡◌, refl, ◌≢◌, ◌⊎◌, inl, inr, Bool, true, false,
  Option, none, some, List, [], ◌∷◌, ◌++◌, arith, if◌then◌else◌, Bool-cases, length, drop, filter,
  length-take_last, All, All-append, All-drop, All-filter, string_eq, nat_eq, ◌==◌, beq_refl,
}
use silo_plugin_dispatcharr.Companion.Buffer.{
  is_kept, is_due, last_one, push, read, InOrder, IsBuffer, IsAnswer, Snapshot, Buffer,
}

module _ {ℓ} {Data : Type ℓ} where
  InOrder-filter :
      (p : Snapshot Data → Bool) (xs : List (Snapshot Data)) → InOrder xs → InOrder (filter p xs)
  InOrder-filter p [] o = tt
  InOrder-filter p (x ∷ xs) o = elim (Bool-cases (p x)) [
    | inl e ↦ rw e (All-filter (λ y. x.at ≤ y.at) p xs o.0, InOrder-filter p xs o.1)
    | inr e ↦ rw e (InOrder-filter p xs o.1)
  ]

  InOrder-drop : (n : ℕ) (xs : List (Snapshot Data)) → InOrder xs → InOrder (drop n xs)
  InOrder-drop zero xs o = o
  InOrder-drop (suc n) [] o = tt
  InOrder-drop (suc n) (x ∷ xs) o = InOrder-drop n xs o.1

  InOrder-append :
      (xs : List (Snapshot Data)) (x : Snapshot Data)
      → InOrder xs
      → All (λ y. y.at ≤ x.at) xs
      → InOrder (xs ++ x ∷ [])
  InOrder-append [] x o a = (tt, tt)
  InOrder-append (y ∷ ys) x o a =
      (All-append (λ z. y.at ≤ z.at) ys (x ∷ []) o.0 (a.0, tt), InOrder-append ys x o.1 a.1)

  InOrder-if : (b : Bool) (xs : List (Snapshot Data)) → InOrder xs → InOrder (if b then xs else [])
  InOrder-if true xs o = o
  InOrder-if false xs o = tt

  All-if :
      (P : Snapshot Data → Type 0) (b : Bool) (xs : List (Snapshot Data))
      → All P xs
      → All P (if b then xs else [])
  All-if P true xs a = a
  All-if P false xs a = tt

  pub All-later :
      (before now : ℕ) (xs : List (Snapshot Data))
      → before ≤ now
      → All (λ y. y.at ≤ before) xs
      → All (λ y. y.at ≤ now) xs
  All-later before now [] h a = tt
  All-later before now (x ∷ xs) h a = (omega (arith, a.0), All-later before now xs h a.1)

  -- A push at a time that is not before an earlier one leaves at most 32 snapshots, in the order
  -- of their times, none of a later time.
  pub push-IsBuffer :
      (game : String) (data_ : Data) (before now : ℕ) (b : Buffer Data)
      → before ≤ now
      → IsBuffer before b
      → IsBuffer now (push game data_ now b)
  unfolding push
  push-IsBuffer game data_ before now b h s =
      let old = if game == b.game then b.snapshots else [] in
      let new : Snapshot Data = record { data_ = data_; at = now } in
      let kept = filter (is_kept now) (old ++ new ∷ []) in
      let olds : All (λ y. y.at ≤ now) old =
        All-if (λ y. y.at ≤ now) (game == b.game) b.snapshots
          (All-later before now b.snapshots h s.1) in
      let n = length kept - 32 in
      (
        omega (arith, length-take_last 32 kept),
        All-drop (λ y. y.at ≤ now) n kept
            (All-filter (λ y. y.at ≤ now) (is_kept now) (old ++ new ∷ [])
              (All-append (λ y. y.at ≤ now) old (new ∷ []) olds (omega arith, tt))),
        InOrder-drop n kept (
            InOrder-filter (is_kept now) (old ++ new ∷ [])
              (InOrder-append old new (InOrder-if (game == b.game) b.snapshots s.2) olds)),
      )

  last_one-All :
      (P : Snapshot Data → Type 0) (z : Snapshot Data) (ys : List (Snapshot Data))
      → All P ys
      → last_one ys ≡ some z
      → P z
  last_one-All P z [] a e = ground arith
  last_one-All P z (y ∷ []) a e = ground arith
  last_one-All P z (y ∷ (y' ∷ ys)) a e = last_one-All P z (y' ∷ ys) a.1 e

  last_one_ne : (y : Snapshot Data) (ys : List (Snapshot Data)) → last_one (y ∷ ys) ≢ none
  last_one_ne y [] e = ground arith
  last_one_ne y (y' ∷ ys) e = last_one_ne y' ys e

  last_one_only :
      (x : Snapshot Data) (ys : List (Snapshot Data))
      → last_one ys ≡ none
      → last_one (x ∷ ys) ≡ some x
  last_one_only x [] e = refl
  last_one_only x (y ∷ ys) e = ground (arith, last_one_ne y ys e)

  last_one_later :
      (x z : Snapshot Data) (ys : List (Snapshot Data))
      → last_one ys ≡ some z
      → last_one (x ∷ ys) ≡ some z
  last_one_later x z [] e = ground arith
  last_one_later x z (y ∷ ys) e = e

  All-within :
      (seconds now : ℕ) (x z : Snapshot Data) (ys : List (Snapshot Data))
      → x.at ≤ z.at
      → IsAnswer seconds now ys (some z)
      → IsAnswer seconds now (x ∷ ys) (some z)
  All-within seconds now x z ys h a = (a.0, (inr h, a.1))

  All-early :
      (seconds now : ℕ) (x : Snapshot Data) (ys : List (Snapshot Data))
      → All (λ y. now < y.at + seconds * 1000) ys
      → All (λ y. (now < y.at + seconds * 1000) ⊎ (y.at ≤ x.at)) ys
  All-early seconds now x [] a = tt
  All-early seconds now x (y ∷ ys) a = (inl a.0, All-early seconds now x ys a.1)

  IsAnswer-cons :
      (seconds now : ℕ) (x : Snapshot Data) (ys : List (Snapshot Data))
      → All (λ y. x.at ≤ y.at) ys
      → (r : Option (Snapshot Data)) → last_one (filter (is_due seconds now) ys) ≡ r
      → IsAnswer seconds now ys r
      → IsAnswer seconds now (x ∷ ys) (last_one (filter (is_due seconds now) (x ∷ ys)))
  IsAnswer-cons seconds now x ys o none e a = elim (Bool-cases (is_due seconds now x)) [
    | inl due ↦
        rw due rw (last_one_only x (filter (is_due seconds now) ys) e)
          (ground arith, (inr (omega arith), All-early seconds now x ys a))
    | inr wait ↦ rw wait rw e (ground arith, a)
  ]
  IsAnswer-cons seconds now x ys o (some z) e a =
      let older : x.at ≤ z.at =
        last_one-All (λ y. x.at ≤ y.at) z (filter (is_due seconds now) ys)
          (All-filter (λ y. x.at ≤ y.at) (is_due seconds now) ys o) e in
      elim (Bool-cases (is_due seconds now x)) [
        | inl due ↦
            rw due rw (last_one_later x z (filter (is_due seconds now) ys) e)
              (All-within seconds now x z ys older a)
        | inr wait ↦ rw wait rw e (All-within seconds now x z ys older a)
      ]

  read-IsAnswer :
      (seconds now : ℕ) (xs : List (Snapshot Data))
      → InOrder xs
      → IsAnswer seconds now xs (last_one (filter (is_due seconds now) xs))
  read-IsAnswer seconds now [] o = tt
  read-IsAnswer seconds now (x ∷ xs) o =
      IsAnswer-cons seconds now x xs o.0 (last_one (filter (is_due seconds now) xs)) refl
        (read-IsAnswer seconds now xs o.1)

  -- After a push to a buffer of snapshots in the order of their times, at a time that is not
  -- before the last one, a reader of that game is given the newest kept snapshot that is old
  -- enough for the delay, or nothing when none is.
  pub read-push :
      (game : String) (data_ : Data) (before pushed seconds now : ℕ) (b : Buffer Data)
      → before ≤ pushed
      → IsBuffer before b
      → IsAnswer seconds now
          (push game data_ pushed b).snapshots
          (read game seconds now (push game data_ pushed b))
  unfolding read push
  read-push game data_ before pushed seconds now b h s = rw (beq_refl game) (
      read-IsAnswer seconds now (push game data_ pushed b).snapshots
        (push-IsBuffer game data_ before pushed b h s).2)
