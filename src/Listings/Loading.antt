-- ===== src/Listings/Loading.antt =====
-- The guide that is covered, and the windows that were answered.
use silo_plugin_dispatcharr.Base.{
  ℕ, ◌+◌, ◌-◌, ◌≤◌, ◌<◌, min, max, String, ◌≡◌, refl, sym, ◌⊎◌, inl, inr, Bool, true, false, none,
  some, List, [], ◌∷◌, ◌++◌, arith, nat_beq, if◌then◌else◌, Bool-cases, All, string_eq, nat_eq,
}
use mathlib.Core.Path.{subst}
use silo_plugin_dispatcharr.Listings.State.{
  Program, guide_lookbehind_seconds, guide_initial_lookahead_seconds,
}
use silo_plugin_dispatcharr.Listings.Coverage.{
  Guide, Window, fetch_guide_window, ensure_guide_coverage, refresh_window, settle, receive_window,
  Loading, ensures, refreshes, replies, fails, Steps, here, next, IsTouching, is_answered,
  count_ensured,
}

-- A request under way is for some time, and an ensured one meets what is covered.
abbrev pub IsRequest : Guide → Window → Type 0
IsRequest g w =
    (0 < w.start)
    × (w.start < w.end)
    × (w.ensured ≡ true → (0 < g.end) × (w.start ≤ g.end) × (g.start ≤ w.end))

pub record IsLoading (s : Loading) : Type 0 where
  pub requests : All (IsRequest s.guide) s.requests
  pub one : count_ensured s.requests ≡ (if s.guide.pending then 1 else 0)
  pub order : s.guide.start ≤ s.guide.end
  pub begun : s.guide.start ≡ 0 → s.guide.end ≡ 0
  pub covered : (t : ℕ) → s.guide.start ≤ t → t < s.guide.end → is_answered s.answered t ≡ true

All-mono :
    (P Q : Window → Type 0) (ws : List Window) → ((w : Window) → P w → Q w) → All P ws → All Q ws
All-mono P Q [] f h = tt
All-mono P Q (w ∷ ws) f h = (f w h.0, All-mono P Q ws f h.1)

All-remove :
    (P : Window → Type 0) (before : List Window) (w : Window) (after : List Window)
    → All P (before ++ w ∷ after)
    → P w × All P (before ++ after)
All-remove P [] w after h = h
All-remove P (b ∷ bs) w after h = let rest = All-remove P bs w after h.1 in (rest.0, (h.0, rest.1))

count_ensured-remove :
    (before : List Window) (w : Window) (after : List Window)
    → count_ensured (before ++ w ∷ after)
      ≡ (if w.ensured then 1 else 0) + count_ensured (before ++ after)
count_ensured-remove [] w after = refl
count_ensured-remove (b ∷ bs) w after = ground (arith, count_ensured-remove bs w after)

-- What a reply makes of the times that are covered.
receive_window-cases :
    (number_text : ℕ → String) (now : ℕ) (w : Window) (programs : List Program) (g : Guide)
    → let q = receive_window number_text now w programs g in
      (q.pending ≡ (if w.ensured then false else g.pending))
      × (((q.start ≡ g.start) × (q.end ≡ g.end))
          ⊎ ((q.start ≡ (if nat_beq g.start 0 then w.start else min g.start w.start))
              × (q.end ≡ max g.end w.end)))
unfolding receive_window
receive_window-cases number_text now w programs g = ground arith

module _ (ws : List Window) (answered : List Window) (g q : Guide) (w : Window)
    (mine : (0 < w.start) × (w.start < w.end))
    (touch : (g.end ≡ 0) ⊎ ((w.start ≤ g.end) × (g.start ≤ w.end)))
    (begun : g.start ≡ 0 → g.end ≡ 0) (order : g.start ≤ g.end)
    (covered : (t : ℕ) → g.start ≤ t → t < g.end → is_answered answered t ≡ true)
    (change : ((q.start ≡ g.start) × (q.end ≡ g.end))
      ⊎ ((q.start ≡ (if nat_beq g.start 0 then w.start else min g.start w.start))
          × (q.end ≡ max g.end w.end))) where
  reply_covered : (t : ℕ) → q.start ≤ t → t < q.end → is_answered (w ∷ answered) t ≡ true
  reply_covered t a b = ground (arith, covered t)

  reply_order : (q.start ≤ q.end) × (q.start ≡ 0 → q.end ≡ 0)
  reply_order = ground arith

  reply-IsRequest : (u : Window) → IsRequest g u → IsRequest q u
  reply-IsRequest u h = ground arith

fetch_guide_window-cases :
    (start end : ℕ) (ensured : Bool)
    → (fetch_guide_window start end ensured ≡ none)
      ⊎ ((fetch_guide_window start end ensured
            ≡ some (record { start = start; end = end; ensured = ensured }))
          × (start < end))
unfolding fetch_guide_window
fetch_guide_window-cases start end ensured = ground arith

ensure_guide_coverage-cases :
    (n : ℕ) (g : Guide)
    → (ensure_guide_coverage n g ≡ (g, []))
      ⊎ ((ensure_guide_coverage n g
            ≡ (record g { pending = true }, record { start = g.end; end = n; ensured = true } ∷ []))
          × (g.pending ≡ false)
          × (0 < g.end)
          × (g.end < n))
unfolding ensure_guide_coverage fetch_guide_window
ensure_guide_coverage-cases n g = ground arith

-- The page after `ensureGuideCoverage`, and after a request ends.
abbrev ensured_with : Loading → Guide × List Window → Loading
ensured_with s r = record { guide = r.0; requests = r.1 ++ s.requests; answered = s.answered }

ensures-IsLoading :
    (n : ℕ) (s : Loading)
    → IsLoading s
    → IsLoading (ensured_with s (ensure_guide_coverage n s.guide))
ensures-IsLoading n s h = elim (ensure_guide_coverage-cases n s.guide) [
  | inl e ↦ subst (λ r. IsLoading (ensured_with s r)) (sym e) h
  | inr e ↦
      subst (λ r. IsLoading (ensured_with s r)) (sym e.0)
        (record {
          requests = (
            (omega arith, omega arith, λ k. (omega arith, omega arith, omega (arith, h.order))),
            All-mono (IsRequest s.guide) (IsRequest (record s.guide { pending = true })) s.requests
                (λ w k. k) h.requests,
          );
          one = ground (arith, h.one);
          order = h.order;
          begun = h.begun;
          covered = h.covered;
        })
]

refreshes-IsLoading :
    (s : Loading) (now : ℕ) (w : Window)
    → guide_lookbehind_seconds < now
    → refresh_window now ≡ some w
    → IsLoading s
    → IsLoading (record { guide = s.guide; requests = w ∷ s.requests; answered = s.answered })
unfolding refresh_window
refreshes-IsLoading s now w c e h =
    let fetched =
      fetch_guide_window-cases (now - guide_lookbehind_seconds)
        (now + guide_initial_lookahead_seconds) false in
    let mine : (w.ensured ≡ false) × (0 < w.start) × (w.start < w.end) = ground (arith, fetched) in
    record {
      requests = ((mine.1, mine.2, λ k. absurd (ground (arith, mine))), h.requests);
      one = ground (arith, mine, h.one);
      order = h.order;
      begun = h.begun;
      covered = h.covered;
    }

replies-IsLoading :
    (number_text : ℕ → String) (now : ℕ) (before : List Window) (w : Window) (after : List Window)
    (programs : List Program) (g : Guide) (answered : List Window)
    → (w.ensured ≡ false → (g.end ≡ 0) ⊎ ((w.start ≤ g.end) × (g.start ≤ w.end)))
    → IsLoading (record { guide = g; requests = before ++ w ∷ after; answered = answered })
    → IsLoading (record {
      guide = receive_window number_text now w programs g;
      requests = before ++ after;
      answered = w ∷ answered;
    })
replies-IsLoading number_text now before w after programs g answered touching h =
    let q = receive_window number_text now w programs g in
    let change = receive_window-cases number_text now w programs g in
    let split = All-remove (IsRequest g) before w after h.requests in
    let mine : (0 < w.start) × (w.start < w.end) = (split.0.0, split.0.1) in
    let touch : (g.end ≡ 0) ⊎ ((w.start ≤ g.end) × (g.start ≤ w.end)) =
      elim (Bool-cases w.ensured) [
        | inl e ↦ inr ((split.0.2 e).1, (split.0.2 e).2)
        | inr e ↦ touching e
      ] in
    let order = reply_order [] answered g q w mine touch h.begun h.order h.covered change.1 in
    record {
      requests =
          All-mono (IsRequest g) (IsRequest q) (before ++ after)
            (reply-IsRequest [] answered g q w mine touch h.begun h.order h.covered change.1)
            split.1;
      one = ground (arith, change.0, h.one, count_ensured-remove before w after);
      order = order.0;
      begun = order.1;
      covered = reply_covered [] answered g q w mine touch h.begun h.order h.covered change.1;
    }

fails-IsLoading :
    (before : List Window) (w : Window) (after : List Window) (g : Guide) (answered : List Window)
    → IsLoading (record { guide = g; requests = before ++ w ∷ after; answered = answered })
    → IsLoading (record { guide = settle w g; requests = before ++ after; answered = answered })
fails-IsLoading before w after g answered h =
    let split = All-remove (IsRequest g) before w after h.requests in
    elim (Bool-cases w.ensured) [
      | inl e ↦ rw e (record {
        requests =
            All-mono (IsRequest g) (IsRequest (record g { pending = false })) (before ++ after)
              (λ u k. k) split.1;
        one = ground (arith, e, h.one, count_ensured-remove before w after);
        order = h.order;
        begun = h.begun;
        covered = h.covered;
      })
      | inr e ↦ rw e (record {
        requests = split.1;
        one = ground (arith, e, h.one, count_ensured-remove before w after);
        order = h.order;
        begun = h.begun;
        covered = h.covered;
      })
    ]

abbrev with_requests : Loading → List Window → Loading
with_requests s ws = record { guide = s.guide; requests = ws; answered = s.answered }

abbrev pub empty_guide : Loading
empty_guide = record {
  guide = record { programs = []; start = 0; end = 0; full = false; pending = false };
  requests = [];
  answered = [];
}

empty-IsLoading : IsLoading empty_guide
empty-IsLoading = record {
  requests = tt;
  one = refl;
  order = omega arith;
  begun = λ e. refl;
  covered = λ t a b. absurd (omega arith);
}

-- From an empty guide, in whatever order requests for windows of the guide are made, answered or
-- fail, when every periodic refresh that is answered meets what is covered by then: each time
-- between the start and the end of the coverage was in a window that was answered, and exactly
-- when a request is marked as pending, one request of ensureGuideCoverage is under way.
pub Steps-IsLoading :
    (number_text : ℕ → String) (u : Loading) (ss : Steps number_text empty_guide u)
    → IsTouching ss
    → IsLoading u
Steps-IsLoading number_text u here h = empty-IsLoading
Steps-IsLoading number_text u (next {t} ss (ensures n e)) h =
    subst IsLoading (sym e) (ensures-IsLoading n t (Steps-IsLoading number_text t ss h))
Steps-IsLoading number_text u (next {t} ss (refreshes now w c e f)) h =
    subst IsLoading (sym f) (refreshes-IsLoading t now w c e (Steps-IsLoading number_text t ss h))
Steps-IsLoading number_text u (next {t} ss (replies now before w after programs e f)) h =
    subst IsLoading (sym f) (
      replies-IsLoading number_text now before w after programs t.guide t.answered h.1
        (subst (λ ws. IsLoading (with_requests t ws)) e (Steps-IsLoading number_text t ss h.0)))
Steps-IsLoading number_text u (next {t} ss (fails before w after e f)) h = subst IsLoading (sym f) (
    fails-IsLoading before w after t.guide t.answered
      (subst (λ ws. IsLoading (with_requests t ws)) e (Steps-IsLoading number_text t ss h)))
