-- ===== src/Player/Interleavings.antt =====
-- All orders in which the viewer acts and the requests of the player come back.
use silo_plugin_dispatcharr.Base.{
  String, ◌≡◌, refl, sym, ap, ◌∙◌, Bool, true, false, none, List, [], arith, All, string_eq, nat_eq,
  ◌==◌,
}
use mathlib.Core.Path.{subst}
use silo_plugin_dispatcharr.Player.State.{
  Player, Lease, Kind, watch, transcode, timeshift, set_view, stop_playback, stop_current_watch,
  stop_time_shift_session, stop_compatibility_session, destroy_attachment,
}
use silo_plugin_dispatcharr.Player.Tasks.{System, Move, acts, resumes, Moves, here, next}
use silo_plugin_dispatcharr.Player.Leases.{is_stopped, is_held}
use silo_plugin_dispatcharr.Player.Operations.{set_view-Keeps}
use silo_plugin_dispatcharr.Player.Apart.{All-mono}
use silo_plugin_dispatcharr.Player.Soundness.{IsSound, IsGranted, act-IsSound, resume-IsSound}

-- The player when the page opens.
abbrev pub IsIdle : Player → Type 0
IsIdle p = p.compatibility_session ≡ none

abbrev pub idle : Player → System
idle p = record { player = p; tasks = []; granted = [] }

Move-IsSound : (rewind_on : Bool) (s u : System) → IsSound s → Move rewind_on s u → IsSound u
Move-IsSound rewind_on s u h (acts a e) = subst IsSound (sym e) (act-IsSound a s h)
Move-IsSound rewind_on s u h (resumes before t after r e f) = subst IsSound (sym f) (
    resume-IsSound rewind_on s.player before t after s.granted r
      (subst (λ ts. IsSound (record { player = s.player; tasks = ts; granted = s.granted })) e h))

module _ (rewind_on : Bool) where
  Moves-IsSound : (s u : System) → IsSound s → Moves rewind_on s u → IsSound u
  Moves-IsSound s u h here = h
  Moves-IsSound s u h (next {t} ms m) = Move-IsSound rewind_on t u (Moves-IsSound s t h ms) m

  -- From a player without a transcoding session and with nothing under way, in whatever order the
  -- viewer acts and the requests of the player come back, every session or lease with a name that
  -- a reply has brought is either held by the player or has been asked to stop.
  pub Moves-IsGranted :
      (p : Player) (u : System)
      → IsIdle p
      → Moves rewind_on (idle p) u
      → All (IsGranted u.player) u.granted
  Moves-IsGranted p u h ms =
      let s : IsSound (idle p) = record {
        tasks = tt;
        apart = tt;
        granted = tt;
        untried = λ e. h;
      } in
      (Moves-IsSound (idle p) u s ms).granted

abbrev pub IsStopped : List Lease → Lease → Type 0
IsStopped stops l = is_stopped stops l.kind l.id ≡ true

set_view_left :
    (view : String) (p : Player)
    → p.view ≡ "player"
    → (view == "player") ≡ false
    → set_view view p ≡ record (stop_current_watch (stop_playback p)) { view = view }
unfolding set_view
set_view_left view p e f =
    let here : (p.view == "player") ≡ true = ap (λ v. v == "player") e in rw f (rw here refl)

left_holds_none :
    (view : String) (p : Player) (k : Kind) (id : String)
    → is_held (stop_current_watch (stop_playback p)) k id ≡ false
unfolding stop_playback stop_current_watch stop_time_shift_session stop_compatibility_session
    destroy_attachment
left_holds_none view p watch id = ground arith
left_holds_none view p transcode id = ground arith
left_holds_none view p timeshift id = ground arith

same_held :
    (view : String) (p : Player) (k : Kind) (id : String)
    → is_held (record p { view = view }) k id ≡ is_held p k id
same_held view p watch id = refl
same_held view p transcode id = refl
same_held view p timeshift id = refl

-- From a player without a transcoding session and with nothing under way: when the viewer, after
-- any actions and replies in any order, goes from the player to another view, every session or
-- lease with a name that a reply has brought has been asked to stop.
pub set_view-IsStopped :
    (rewind_on : Bool) (p : Player) (u : System) (view : String)
    → IsIdle p
    → Moves rewind_on (idle p) u
    → u.player.view ≡ "player"
    → (view == "player") ≡ false
    → All (IsStopped (set_view view u.player).stops) u.granted
set_view-IsStopped rewind_on p u view h ms e f =
    let q = set_view view u.player in
    let held : (k : Kind) (id : String) → is_held q k id ≡ false = λ k id.
      ap (λ o. is_held o k id) (set_view_left view u.player e f)
      ∙ same_held view (stop_current_watch (stop_playback u.player)) k id
      ∙ left_holds_none view u.player k id in
    All-mono (IsGranted u.player) (IsStopped q.stops) u.granted
      (λ l g.
        ground (arith, (set_view-Keeps view u.player).leases l.kind l.id g.1 g.0, held l.kind l.id))
      (Moves-IsGranted rewind_on p u h ms)
