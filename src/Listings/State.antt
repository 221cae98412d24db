-- ===== src/Listings/State.antt =====
-- The programs of the guide and the operations that load them. Times are seconds since the epoch,
-- 0 where the source has none, and a text is empty where the source has none.
use silo_plugin_dispatcharr.Base.{
  ℕ, ◌+◌, ◌-◌, ◌*◌, String, Bool, true, false, ◌&&◌, ◌||◌, not, Option, none, some, List, [], ◌∷◌,
  ◌++◌, map, ltb, leb, nat_beq, if◌then◌else◌, filter, string_eq, nat_eq, ◌==◌, contains, sort_by,
}
use Prim.Native.String.{◌++◌ as concat}

pub record Program : Type 0 where
  pub id : String
  pub channel_id : String
  pub start_unix : ℕ
  pub end_unix : ℕ
  pub title : String

abbrev pub guide_lookbehind_seconds : ℕ
guide_lookbehind_seconds = 3 * 3600

abbrev pub guide_initial_lookahead_seconds : ℕ
guide_initial_lookahead_seconds = 24 * 3600

-- `||` on numbers
abbrev pub num_or : ℕ → ℕ → ℕ
num_or a b = if nat_beq a 0 then b else a

-- How a number prints is the language's, a parameter here.
module _ (number_text : ℕ → String) where
  unfoldable pub guide_program_key : Program → String
  guide_program_key p =
      if not (p.id == "")
      then concat "id:" p.id
      else concat p.channel_id (concat "@" (concat (number_text p.start_unix) (concat "@" p.title)))

unfoldable pub program_overlaps_window : Program → ℕ → ℕ → Bool
program_overlaps_window p start end =
    let program_end = num_or p.end_unix (p.start_unix + 1800) in
    ltb start program_end && ltb p.start_unix end

-- `merged` with `order`: the programs by key, in the order in which the keys came.
abbrev pub Entry : Type 0
Entry = String × Program

unfoldable pub put : String → Program → List Entry → List Entry
put key p [] = (key, p) ∷ []
put key p (e ∷ es) = if e.0 == key then (key, p) ∷ es else e ∷ put key p es

module _ (number_text : ℕ → String) where
  unfoldable pub add_all : List Program → List Entry → List Entry
  unfolding put guide_program_key
  add_all [] merged = merged
  add_all (p ∷ ps) merged = add_all ps (put (guide_program_key number_text p) p merged)

-- Subtraction stops at 0; the source's floor may be negative, and keeps as much then.
unfoldable pub is_kept : ℕ → ℕ → ℕ → Program → Bool
unfolding program_overlaps_window
is_kept now start end p =
    let floor = now - guide_lookbehind_seconds - 3600 in
    not (not (nat_beq p.end_unix 0) && ltb p.end_unix floor)
    && not (program_overlaps_window p start end)

module _ (number_text : ℕ → String) where
  unfoldable pub merge_guide_window_programs :
      ℕ → List Program → List Program → ℕ → ℕ → List Program
  unfolding add_all is_kept
  merge_guide_window_programs now existing fresh start end =
      let kept = add_all number_text (filter (is_kept now start end) existing) [] in
      map (λ e. e.1) (add_all number_text fresh kept)

unfoldable pub guide_window_ignored_by_backend : List Program → ℕ → ℕ → Bool
guide_window_ignored_by_backend [] start end = false
guide_window_ignored_by_backend (p ∷ ps) start end =
    leb end p.start_unix
    || (not (nat_beq p.end_unix 0) && leb p.end_unix start)
    || guide_window_ignored_by_backend ps start end

-- The index: the programs in the order of their start, and those of each channel.
abbrev pub starts_before : Program → Program → Bool
starts_before a b = ltb a.start_unix b.start_unix

abbrev pub ByChannel : Type 0
ByChannel = List (String × List Program)

unfoldable pub push_program : String → Program → ByChannel → ByChannel
push_program id p [] = (id, p ∷ []) ∷ []
push_program id p (e ∷ es) =
    if e.0 == id then (id, e.1 ++ p ∷ []) ∷ es else e ∷ push_program id p es

unfoldable pub index_programs : List Program → ByChannel → ByChannel
unfolding push_program
index_programs [] by_channel = by_channel
index_programs (p ∷ ps) by_channel =
    index_programs ps
      (if p.channel_id == "" then by_channel else push_program p.channel_id p by_channel)

abbrev pub programs_of : ByChannel → String → List Program
programs_of [] id = []
programs_of (e ∷ es) id = if e.0 == id then e.1 else programs_of es id

pub record Index : Type 0 where
  pub sorted_programs : List Program
  pub programs_by_channel : ByChannel

unfoldable pub rebuild_program_index : List Program → Index
unfolding index_programs sort_by
rebuild_program_index programs =
    let sorted = sort_by starts_before programs in
    record { sorted_programs = sorted; programs_by_channel = index_programs sorted [] }

-- `allowed` is the channel map of the selected profile, when there is one.
abbrev pub is_allowed : Option (List String) → String → Bool
is_allowed none id = true
is_allowed (some ids) id = contains ids id

-- The filter of `programsFor`.
abbrev pub is_listed : Option (List String) → ℕ → String → Program → Bool
is_listed allowed now channel_id p =
    is_allowed allowed p.channel_id
    && (channel_id == "" || p.channel_id == channel_id)
    && (nat_beq p.end_unix 0 || leb (now - 3600) p.end_unix)

unfoldable pub programs_for : Option (List String) → ℕ → Index → String → List Program
programs_for allowed now index channel_id =
    let named = not (channel_id == "") in
    let source =
      if named then programs_of index.programs_by_channel channel_id else index.sorted_programs in
    let found = filter (is_listed allowed now channel_id) source in
    if named && not (is_allowed allowed channel_id) then [] else found
