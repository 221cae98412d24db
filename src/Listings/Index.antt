-- ===== src/Listings/Index.antt =====
-- The index of programs by channel against a search of all programs.
use silo_plugin_dispatcharr.Base.{
  ℕ, String, ◌≡◌, refl, sym, ◌∙◌, inl, inr, Bool, false, ◌&&◌, Option, List, [], ◌∷◌, ◌++◌, arith,
  if◌then◌else◌, Bool-cases, filter, string_eq, nat_eq, ◌==◌, sort_by, IsSorted, IsWeakOrder,
  sort_by-IsSorted,
}
use mathlib.Core.List.{append_assoc, append-nil}
use silo_plugin_dispatcharr.Listings.State.{
  Program, ByChannel, push_program, index_programs, programs_of, Index, starts_before,
  rebuild_program_index, is_allowed, is_listed, programs_for,
}

programs_of-push_program :
    (id k : String) (p : Program) (es : ByChannel)
    → programs_of (push_program id p es) k
      ≡ (if id == k then programs_of es k ++ p ∷ [] else programs_of es k)
unfolding push_program
programs_of-push_program id k p [] = ground (arith, string_eq.beq_iff id k)
programs_of-push_program id k p (e ∷ es) = ground (
  arith,
  programs_of-push_program id k p es,
  string_eq.beq_iff e.0 id,
  string_eq.beq_iff e.0 k,
  string_eq.beq_iff id k,
)

abbrev is_of : String → Program → Bool
is_of k p = p.channel_id == k

index_programs_lem :
    (k : String) (ps : List Program) (es : ByChannel)
    → (k == "") ≡ false
    → programs_of (index_programs ps es) k ≡ programs_of es k ++ filter (is_of k) ps
unfolding index_programs
index_programs_lem k [] es h = sym (append-nil (programs_of es k))
index_programs_lem k (p ∷ ps) es h =
    let rest =
      index_programs_lem k ps (if p.channel_id == "" then es else push_program p.channel_id p es)
        h in
    rest
    ∙ ground (
      arith,
      programs_of-push_program p.channel_id k p es,
      string_eq.beq_iff p.channel_id k,
      string_eq.beq_iff p.channel_id "",
      string_eq.beq_iff k "",
      append_assoc (programs_of es k) (p ∷ []) (filter (is_of k) ps),
    )

filter-filter :
    (p q : Program → Bool) (xs : List Program)
    → filter p (filter q xs) ≡ filter (λ x. q x && p x) xs
filter-filter p q [] = refl
filter-filter p q (x ∷ xs) = ground (arith, filter-filter p q xs)

filter-none :
    (p : Program → Bool) (xs : List Program) → ((x : Program) → p x ≡ false) → filter p xs ≡ []
filter-none p [] h = refl
filter-none p (x ∷ xs) h = rw (h x) (filter-none p xs h)

sorted_order : IsWeakOrder starts_before
sorted_order = record { asym = λ x y h. ground arith; chain = λ x y z h k. ground arith }

listed_channel :
    (allowed : Option (List String)) (now : ℕ) (k : String) (xs : List Program)
    → (k == "") ≡ false
    → (if is_allowed allowed k then filter (is_listed allowed now k) (filter (is_of k) xs) else [])
      ≡ filter (is_listed allowed now k) xs
listed_channel allowed now k [] h = ground arith
listed_channel allowed now k (x ∷ xs) h =
    ground (arith, listed_channel allowed now k xs h, string_eq.beq_iff x.channel_id k)

programs_for-cases :
    (allowed : Option (List String)) (now : ℕ) (index : Index) (k : String)
    → programs_for allowed now index k ≡ (
        if k == ""
        then filter (is_listed allowed now k) index.sorted_programs
        else if is_allowed allowed k
        then filter (is_listed allowed now k) (programs_of index.programs_by_channel k)
        else [])
unfolding programs_for
programs_for-cases allowed now index k = ground arith

-- What is listed for a channel, or for all channels where none is named, by way of the index is a
-- filter of all programs in the order of their start: those on an allowed channel, of the channel
-- that is named, and over for at most an hour.
pub programs_for_lem :
    (allowed : Option (List String)) (now : ℕ) (programs : List Program) (channel_id : String)
    → let sorted = sort_by starts_before programs in
      IsSorted starts_before sorted
      × (programs_for allowed now (rebuild_program_index programs) channel_id
          ≡ filter (is_listed allowed now channel_id) sorted)
unfolding programs_for rebuild_program_index
programs_for_lem allowed now programs channel_id =
    let sorted = sort_by starts_before programs in
    let k = channel_id in
    (
      sort_by-IsSorted starts_before sorted_order programs,
      programs_for-cases allowed now (rebuild_program_index programs) k
          ∙ elim (Bool-cases (k == "")) [
            | inl e ↦ rw e refl
            | inr e ↦
                rw e (rw (index_programs_lem k sorted [] e) (listed_channel allowed now k sorted e))
          ],
    )
