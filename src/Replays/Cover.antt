-- ===== src/Replays/Cover.antt =====
-- The merged windows are apart and cover what they were made of.
use mathlib.Core.Path.{subst}
use silo_plugin_dispatcharr.Base.{
  ℕ, zero, suc, ◌+◌, ◌-◌, ◌≤◌, max, ◌≡◌, refl, sym, inl, inr, true, false, List, [], ◌∷◌, map,
  arith, ltb, leb, Bool-cases, length, drop, filter, length-take_last, All, string_eq, nat_eq,
  sort_by, IsSorted, IsWeakOrder, sort_by-IsSorted,
}
use silo_plugin_dispatcharr.Replays.Windows.{
  Window, WindowOptions, or_default, is_searched, padding, window_of, merge_from, merge_windows,
  event_windows, catalog_windows, IsApart, IsRising, Behind, IsCovered,
}

IsRising-weaken : (from to : ℕ) (ws : List Window) → to ≤ from → IsRising from ws → IsRising to ws
IsRising-weaken from to [] h r = tt
IsRising-weaken from to (w ∷ ws) h r = (omega (arith, r.0), r.1, r.2)

All-Behind :
    (from to : ℕ) (ws : List Window) → to ≤ from → All (Behind from) ws → All (Behind to) ws
All-Behind from to [] h a = tt
All-Behind from to (w ∷ ws) h a = (omega (arith, a.0), All-Behind from to ws h a.1)

merge_from-Behind :
    (p : Window) (ws : List Window) → IsRising p.start ws → All (Behind p.start) (merge_from p ws)
unfolding merge_from
merge_from-Behind p [] r = (omega arith, tt)
merge_from-Behind p (w ∷ ws) r =
    let wider : Window = record { start = p.start; stop = max p.stop w.stop } in
    elim (Bool-cases (leb w.start (p.stop + 86400))) [
      | inl near ↦ rw near (merge_from-Behind wider ws (IsRising-weaken w.start p.start ws r.0 r.2))
      | inr far ↦ rw far (
        omega arith,
        All-Behind w.start p.start (merge_from w ws) r.0 (merge_from-Behind w ws r.2),
      )
    ]

merge_from-IsApart :
    (p : Window) (ws : List Window) → IsRising p.start ws → IsApart (merge_from p ws)
unfolding merge_from
merge_from-IsApart p [] r = (tt, tt)
merge_from-IsApart p (w ∷ ws) r =
    let wider : Window = record { start = p.start; stop = max p.stop w.stop } in
    elim (Bool-cases (leb w.start (p.stop + 86400))) [
      | inl near ↦
          rw near (merge_from-IsApart wider ws (IsRising-weaken w.start p.start ws r.0 r.2))
      | inr far ↦ rw far (
        All-Behind w.start (suc (p.stop + 86400)) (merge_from w ws) (ground arith)
            (merge_from-Behind w ws r.2),
        merge_from-IsApart w ws r.2,
      )
    ]

IsApart-drop : (n : ℕ) (ws : List Window) → IsApart ws → IsApart (drop n ws)
IsApart-drop zero ws a = a
IsApart-drop (suc n) [] a = tt
IsApart-drop (suc n) (w ∷ ws) a = IsApart-drop n ws a.1

later_windows :
    (pad d : ℕ) (ds : List ℕ) → All (λ y. ltb y d ≡ false) ds → All (λ y. d - pad ≤ y - pad) ds
later_windows pad d [] a = tt
later_windows pad d (e ∷ es) a = (ground arith, later_windows pad d es a.1)

windows-IsRising :
    (pad from : ℕ) (dates : List ℕ)
    → IsSorted ltb dates
    → All (λ d. from ≤ d - pad) dates
    → IsRising from (map (window_of pad) dates)
windows-IsRising pad from [] s a = tt
windows-IsRising pad from (d ∷ ds) s a =
    (a.0, omega arith, windows-IsRising pad (d - pad) ds s.1 (later_windows pad d ds s.0))

ltb-IsWeakOrder : IsWeakOrder ltb
ltb-IsWeakOrder = record { asym = λ x y h. ground arith; chain = λ x y z h k. ground arith }

any_start : (pad : ℕ) (dates : List ℕ) → All (λ d. 0 ≤ d - pad) dates
any_start pad [] = tt
any_start pad (d ∷ ds) = (omega arith, any_start pad ds)

event_windows-IsRising : (o : WindowOptions) (dates : List ℕ) → IsRising 0 (event_windows o dates)
unfolding event_windows
event_windows-IsRising o dates =
    let searched = filter (is_searched o) dates in
    windows-IsRising (padding o) 0 (sort_by ltb searched)
      (sort_by-IsSorted ltb ltb-IsWeakOrder searched) (any_start (padding o) (sort_by ltb searched))

merge_windows-IsApart : (ws : List Window) → IsRising 0 ws → IsApart (merge_windows ws)
unfolding merge_windows
merge_windows-IsApart [] r = tt
merge_windows-IsApart (w ∷ ws) r = merge_from-IsApart w ws r.2

-- The windows in which the catalog is searched are at most as many as the limit, and more than a
-- day lies between the end of one and the start of every later one.
pub catalog_windows-IsApart :
    (o : WindowOptions) (dates : List ℕ)
    → IsApart (catalog_windows o dates)
      × (length (catalog_windows o dates) ≤ max 1 (or_default o.max_catalog_windows 4))
unfolding catalog_windows
catalog_windows-IsApart o dates =
    let merged = merge_windows (event_windows o dates) in
    let most = max 1 (or_default o.max_catalog_windows 4) in
    (
      IsApart-drop (length merged - most) merged
          (merge_windows-IsApart (event_windows o dates) (event_windows-IsRising o dates)),
      omega (arith, length-take_last most merged),
    )

-- The window that is merged last grows, so what it covers stays covered.
merge_from-IsCovered :
    (p v : Window) (ws : List Window)
    → p.start ≤ v.start
    → v.stop ≤ p.stop
    → IsCovered v (merge_from p ws)
unfolding merge_from
merge_from-IsCovered p v [] s e = inl (s, e)
merge_from-IsCovered p v (w ∷ ws) s e =
    let wider : Window = record { start = p.start; stop = max p.stop w.stop } in
    elim (Bool-cases (leb w.start (p.stop + 86400))) [
      | inl near ↦ rw near (merge_from-IsCovered wider v ws s (omega arith))
      | inr far ↦ rw far (inl (s, e))
    ]

All-IsCovered :
    (p : Window) (vs ws : List Window)
    → All (λ w. IsCovered w vs) ws
    → All (λ w. IsCovered w (p ∷ vs)) ws
All-IsCovered p vs [] a = tt
All-IsCovered p vs (w ∷ ws) a = (inr a.0, All-IsCovered p vs ws a.1)

abbrev widened : Window → Window → Window
widened p w = record { start = p.start; stop = max p.stop w.stop }

merge_near :
    (p w : Window) (ws : List Window)
    → leb w.start (p.stop + 86400) ≡ true
    → merge_from p (w ∷ ws) ≡ merge_from (widened p w) ws
unfolding merge_from
merge_near p w ws h = rw h refl

merge_far :
    (p w : Window) (ws : List Window)
    → leb w.start (p.stop + 86400) ≡ false
    → merge_from p (w ∷ ws) ≡ p ∷ merge_from w ws
unfolding merge_from
merge_far p w ws h = rw h refl

merge_from-All :
    (p : Window) (ws : List Window)
    → IsRising p.start ws
    → All (λ w. IsCovered w (merge_from p ws)) ws
merge_from-All p [] r = tt
merge_from-All p (w ∷ ws) r = elim (Bool-cases (leb w.start (p.stop + 86400))) [
  | inl near ↦
      subst (λ vs. All (λ v. IsCovered v vs) (w ∷ ws)) (sym (merge_near p w ws near))
        (
          merge_from-IsCovered (widened p w) w ws r.0 (omega arith),
          merge_from-All (widened p w) ws (IsRising-weaken w.start p.start ws r.0 r.2),
        )
  | inr far ↦
      subst (λ vs. All (λ v. IsCovered v vs) (w ∷ ws)) (sym (merge_far p w ws far))
        (
          inr (merge_from-IsCovered w w ws (omega arith) (omega arith)),
          All-IsCovered p (merge_from w ws) ws (merge_from-All w ws r.2),
        )
]

IsCovered-All : (ws : List Window) → IsRising 0 ws → All (λ w. IsCovered w (merge_windows ws)) ws
unfolding merge_windows
IsCovered-All [] r = tt
IsCovered-All (w ∷ ws) r =
    (merge_from-IsCovered w w ws (omega arith) (omega arith), merge_from-All w ws r.2)

-- The range of days around each event that is searched for lies in one of the merged windows,
-- before the oldest windows are cut off.
pub merge_windows-IsCovered :
    (o : WindowOptions) (dates : List ℕ)
    → All (λ w. IsCovered w (merge_windows (event_windows o dates))) (event_windows o dates)
merge_windows-IsCovered o dates =
    IsCovered-All (event_windows o dates) (event_windows-IsRising o dates)
