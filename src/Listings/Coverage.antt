-- ===== src/Listings/Coverage.antt =====
-- Which part of the guide has been fetched, and the requests under way.
use silo_plugin_dispatcharr.Base.{
  ℕ, ◌+◌, ◌-◌, ◌≤◌, ◌<◌, min, max, String, ◌≡◌, ◌⊎◌, Bool, true, false, ◌&&◌, ◌||◌, Option, none,
  some, List, [], ◌∷◌, ◌++◌, ltb, leb, nat_beq, if◌then◌else◌, string_eq, nat_eq,
}
use silo_plugin_dispatcharr.Listings.State.{
  Program, merge_guide_window_programs, guide_window_ignored_by_backend, guide_lookbehind_seconds,
  guide_initial_lookahead_seconds,
}

-- `guideCoverage` with the programs.
pub record Guide : Type 0 where
  pub programs : List Program
  pub start : ℕ
  pub end : ℕ
  pub full : Bool
  pub pending : Bool

-- A request for a window, and whether `ensureGuideCoverage` made it.
pub record Window : Type 0 where
  pub start : ℕ
  pub end : ℕ
  pub ensured : Bool

-- `fetchGuideWindow` up to its request; `none` where it makes none.
unfoldable pub fetch_guide_window : ℕ → ℕ → Bool → Option Window
fetch_guide_window start end ensured =
    if leb end start then none else some (record { start = start; end = end; ensured = ensured })

-- `ensureGuideCoverage`; a fetch that makes no request ends at once.
unfoldable pub ensure_guide_coverage : ℕ → Guide → Guide × List Window
unfolding fetch_guide_window
ensure_guide_coverage until_unix g =
    if g.full || nat_beq g.end 0
    then (g, [])
    else if leb until_unix g.end
    then (g, [])
    else if g.pending
    then (g, [])
    else elim (fetch_guide_window g.end until_unix true) [
      | none ↦ (g, [])
      | some w ↦ (record g { pending = true }, w ∷ [])
    ]

-- The window that a periodic refresh reads.
unfoldable pub refresh_window : ℕ → Option Window
unfolding fetch_guide_window
refresh_window now =
    fetch_guide_window (now - guide_lookbehind_seconds) (now + guide_initial_lookahead_seconds)
      false

-- The promise of an ensured window settles.
abbrev pub settle : Window → Guide → Guide
settle w g = if w.ensured then record g { pending = false } else g

-- `fetchGuideWindow` from the reply on, and the `finally` of `ensureGuideCoverage`.
unfoldable pub receive_window : (ℕ → String) → ℕ → Window → List Program → Guide → Guide
unfolding merge_guide_window_programs guide_window_ignored_by_backend
receive_window number_text now w programs g =
    let merged = merge_guide_window_programs number_text now g.programs programs w.start w.end in
    settle w (
      if g.full || guide_window_ignored_by_backend programs w.start w.end
      then record g { full = true; programs = programs }
      else record g {
        programs = merged;
        start = if nat_beq g.start 0 then w.start else min g.start w.start;
        end = max g.end w.end;
      })

pub record Loading : Type 0 where
  pub guide : Guide
  pub requests : List Window
  pub answered : List Window

-- One step of the page, whose clock is past the first hours of 1970: a view asks for more of the guide, the timer refreshes, or a request ends.
pub data Step (number_text : ℕ → String) (s u : Loading) : Type 0 where
  ensures :
      (until_unix : ℕ)
      → u ≡ record {
        guide = (ensure_guide_coverage until_unix s.guide).0;
        requests = (ensure_guide_coverage until_unix s.guide).1 ++ s.requests;
        answered = s.answered;
      }
      → Step number_text s u
  refreshes :
      (now : ℕ) (w : Window)
      → guide_lookbehind_seconds < now
      → refresh_window now ≡ some w
      → u ≡ record { guide = s.guide; requests = w ∷ s.requests; answered = s.answered }
      → Step number_text s u
  replies :
      (now : ℕ) (before : List Window) (w : Window) (after : List Window) (programs : List Program)
      → s.requests ≡ before ++ w ∷ after
      → u ≡ record {
        guide = receive_window number_text now w programs s.guide;
        requests = before ++ after;
        answered = w ∷ s.answered;
      }
      → Step number_text s u
  fails :
      (before : List Window) (w : Window) (after : List Window)
      → s.requests ≡ before ++ w ∷ after
      → u ≡ record { guide = settle w s.guide; requests = before ++ after; answered = s.answered }
      → Step number_text s u

pub data Steps (number_text : ℕ → String) (s : Loading) : Loading → Type 0 where
  here : Steps number_text s s
  next : {t u : Loading} → Steps number_text s t → Step number_text t u → Steps number_text s u

-- Every refresh that is answered meets what is covered already.
abbrev pub IsTouching : {number_text : ℕ → String} {s u : Loading} → Steps number_text s u → Type 0
IsTouching here = Unit
IsTouching (next ms (ensures n e)) = IsTouching ms
IsTouching (next ms (refreshes now w c e f)) = IsTouching ms
IsTouching (next {t} ms (replies now before w after programs e f)) =
    IsTouching ms
    × (w.ensured ≡ false → (t.guide.end ≡ 0) ⊎ ((w.start ≤ t.guide.end) × (t.guide.start ≤ w.end)))
IsTouching (next ms (fails before w after e f)) = IsTouching ms

abbrev pub is_answered : List Window → ℕ → Bool
is_answered [] t = false
is_answered (w ∷ ws) t = (leb w.start t && ltb t w.end) || is_answered ws t

abbrev pub count_ensured : List Window → ℕ
count_ensured [] = 0
count_ensured (w ∷ ws) = (if w.ensured then 1 else 0) + count_ensured ws
