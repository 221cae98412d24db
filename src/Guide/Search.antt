-- ===== src/Guide/Search.antt =====
-- `guideSearchPrograms`: the programs of the guide's window that contain a text, first by start,
-- then by channel. The text tests of app.js are arguments.
use silo_plugin_dispatcharr.Guide.Cells.{or_number}
use silo_plugin_dispatcharr.Base.{
  ℕ, suc, ◌+◌, min, max, String, ◌≡◌, ◌↔◌, Bool, true, ◌&&◌, ◌||◌, not, List, [], ◌∷◌, ◌++◌, arith,
  ltb, leb, nat_beq, if◌then◌else◌, length, Eq, ◌==◌, nat_eq, string_eq, contains, sort_by,
}

pub record SearchProgram : Type 0 where
  pub id : String
  pub title : String
  pub description : String
  pub start_unix : ℕ
  pub end_unix : ℕ

pub record SearchChannel : Type 0 where
  pub id : String
  pub programs : List SearchProgram

pub record Match : Type 0 where
  pub channel : SearchChannel
  pub program : SearchProgram
  pub start : ℕ
  pub channel_index : ℕ

-- `JSON.stringify([channel.id, program.id || "", start, end])`
pub record MatchKey : Type 0 where
  pub channel_id : String
  pub program_id : String
  pub start : ℕ
  pub stop : ℕ

unfoldable pub key_beq : MatchKey → MatchKey → Bool
key_beq a b =
    a.channel_id == b.channel_id
    && a.program_id == b.program_id
    && nat_beq a.start b.start
    && nat_beq a.stop b.stop

pub key_beq_iff : (a b : MatchKey) → (key_beq a b ≡ true) ↔ (a ≡ b)
unfolding key_beq
key_beq_iff a b = (
  λ h. ground (
    arith,
    string_eq.beq_iff a.channel_id b.channel_id,
    string_eq.beq_iff a.program_id b.program_id,
  ),
  λ e. ground (
    arith,
    string_eq.beq_iff a.channel_id b.channel_id,
    string_eq.beq_iff a.program_id b.program_id,
  ),
)

instance abbrev pub key_eq : Eq MatchKey
key_eq = record { beq = key_beq; beq_iff = key_beq_iff }

-- What the search calls of the language and of app.js.
pub record TextOps : Type 0 where
  pub trim : String → String
  pub to_lower : String → String
  pub text_length : String → ℕ
  pub has_text : String → String → Bool
  pub join_words : String → String → String
  pub is_placeholder : SearchProgram → Bool

pub record Found : Type 0 where
  pub entries : List Match
  pub total : ℕ

-- The loop's state: the keys met and the result so far.
pub record Searching : Type 0 where
  pub seen : List MatchKey
  pub result : Found

abbrev pub program_end : ℕ → SearchProgram → ℕ
program_end start program = or_number program.end_unix (start + 1800)

abbrev pub match_key : Match → MatchKey
match_key m = record {
  channel_id = m.channel.id;
  program_id = m.program.id;
  start = m.start;
  stop = program_end m.start m.program;
}

-- `Array.prototype.pop`
abbrev pub pop {ℓ} : {A : Type ℓ} → List A → List A
pop [] = []
pop (x ∷ []) = []
pop (x ∷ (y ∷ ys)) = x ∷ pop (y ∷ ys)

module _ (window_start : ℕ) where
  abbrev pub listed_before : Match → Match → Bool
  listed_before a b =
      ltb (max a.start window_start) (max b.start window_start)
      || (nat_beq (max a.start window_start) (max b.start window_start)
          && ltb a.channel_index b.channel_index)

  -- Put the match among the entries and drop the last one when there are too many.
  unfoldable pub add_entry : ℕ → List Match → Match → List Match
  add_entry maximum entries m =
      let sorted = sort_by listed_before (entries ++ m ∷ []) in
      if ltb maximum (length sorted) then pop sorted else sorted

  -- The part of the inner loop behind its tests of the program.
  unfoldable pub accept : ℕ → Searching → Match → Searching
  accept maximum s m = if contains s.seen (match_key m) then s else record {
    seen = match_key m ∷ s.seen;
    result = record { entries = add_entry maximum s.result.entries m; total = s.result.total + 1 };
  }

abbrev pub as_match : ℕ → SearchChannel → ℕ → SearchProgram → Match
as_match window_start channel channel_index program = record {
  channel = channel;
  program = program;
  start = or_number program.start_unix window_start;
  channel_index = channel_index;
}

module _ (text : TextOps) (needle : String) (window_start window_end : ℕ) where
  -- Whether the loop goes on with a program.
  unfoldable pub is_candidate : SearchProgram → Bool
  is_candidate program =
      let start = or_number program.start_unix window_start in
      let stop = program_end start program in
      not (leb stop window_start || leb window_end start || text.is_placeholder program)
      && text.has_text (text.to_lower (text.join_words program.title program.description)) needle

module _ (text : TextOps) (needle : String) (window_start window_end maximum : ℕ) where
  unfoldable pub search_channel : SearchChannel → ℕ → List SearchProgram → Searching → Searching
  search_channel channel channel_index [] s = s
  search_channel channel channel_index (program ∷ rest) s =
      search_channel channel channel_index rest (
        if is_candidate text needle window_start window_end program
        then accept window_start maximum s (as_match window_start channel channel_index program)
        else s)

  unfoldable pub search_channels : ℕ → List SearchChannel → Searching → Searching
  search_channels channel_index [] s = s
  search_channels channel_index (channel ∷ rest) s =
      search_channels (suc channel_index) rest
        (search_channel channel channel_index channel.programs s)

abbrev pub nothing_found : Found
nothing_found = record { entries = []; total = 0 }

abbrev pub search_limit : ℕ → ℕ
search_limit limit = max 1 (min 20 (or_number limit 20))

unfoldable pub guide_search_programs : TextOps → List SearchChannel → String → ℕ → ℕ → ℕ → Found
guide_search_programs text channels query window_start window_end limit =
    let needle = text.to_lower (text.trim query) in
    if ltb (text.text_length needle) 2
    then nothing_found
    else (search_channels text needle window_start window_end (search_limit limit) 0 channels
        record { seen = []; result = nothing_found }).result
