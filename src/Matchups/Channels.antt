-- ===== src/Matchups/Channels.antt =====
-- The channels of the games that are joined.
use silo_plugin_dispatcharr.Base.{
  ℕ, String, ◌≡◌, refl, sym, ap, ◌∙◌, Bool, true, false, ◌&&◌, ◌||◌, not, List, [], ◌∷◌, ◌++◌,
  arith, ltb, if◌then◌else◌, string_eq, nat_eq, contains,
}
use silo_plugin_dispatcharr.Matchups.State.{
  Link, SportsEvent, sports_event_listing_rank, sports_events_same_matchup, channel_key, is_offered,
  unique_links, unique_event_channels, join_events, absorb, collapse_onto,
  collapse_equivalent_sports_events,
}

module _ (shown : Link → Bool) (key : Link → String) where
  -- The keys of the channels that may be shown.
  abbrev pub shown_keys : List Link → List String
  shown_keys [] = []
  shown_keys (c ∷ cs) = if shown c then key c ∷ shown_keys cs else shown_keys cs

  shown_keys-append :
      (xs ys : List Link) (k : String)
      → contains (shown_keys (xs ++ ys)) k
        ≡ (contains (shown_keys xs) k || contains (shown_keys ys) k)
  shown_keys-append [] ys k = refl
  shown_keys-append (x ∷ xs) ys k = ground (arith, shown_keys-append xs ys k)

  unique_links-keys :
      (seen : List String) (cs : List Link) (k : String)
      → contains (shown_keys (unique_links shown key seen cs)) k
        ≡ (contains (shown_keys cs) k && not (contains seen k))
  unfolding unique_links
  unique_links-keys seen [] k = refl
  unique_links-keys seen (c ∷ cs) k = ground (
    arith,
    unique_links-keys seen cs k,
    unique_links-keys (key c ∷ seen) cs k,
    string_eq.beq_iff (key c) k,
  )

  -- The channels of one of two events, of the second and of the first are those of both.
  joined_keys :
      (b : Bool) (x e : SportsEvent) (k : String)
      → contains
          (shown_keys
            (unique_links shown key [] ((if b then e else x).channels ++ e.channels ++ x.channels)))
          k
        ≡ (contains (shown_keys e.channels) k || contains (shown_keys x.channels) k)
  joined_keys true x e k = ground (
    arith,
    unique_links-keys [] (e.channels ++ e.channels ++ x.channels) k,
    shown_keys-append (e.channels ++ e.channels) x.channels k,
    shown_keys-append e.channels e.channels k,
    shown_keys-append e.channels (e.channels ++ x.channels) k,
    shown_keys-append e.channels x.channels k,
  )
  joined_keys false x e k = ground (
    arith,
    unique_links-keys [] (x.channels ++ e.channels ++ x.channels) k,
    shown_keys-append (x.channels ++ e.channels) x.channels k,
    shown_keys-append x.channels e.channels k,
    shown_keys-append x.channels (e.channels ++ x.channels) k,
    shown_keys-append e.channels x.channels k,
  )

or_swap : (a b c : Bool) → ((a || b) || c) ≡ (a || (b || c))
or_swap a b c = ground arith

or_false_right : (a : Bool) → (a || false) ≡ a
or_false_right a = ground arith

or_move : (a b c : Bool) → (b || (a || c)) ≡ (a || (b || c))
or_move a b c = ground arith

module _ (words : String → List String) (size : String → ℕ) (lower : String → String)
    (matches : Link → Bool) where
  abbrev pub link_keys : List Link → List String
  link_keys cs =
      shown_keys (is_offered words size lower matches) (channel_key words size lower matches) cs

  abbrev pub has_channel : String → List SportsEvent → Bool
  has_channel k [] = false
  has_channel k (e ∷ es) = contains (link_keys e.channels) k || has_channel k es

  join_events-keys :
      (x e : SportsEvent) (k : String)
      → contains (link_keys (join_events words size lower matches x e).channels) k
        ≡ (contains (link_keys e.channels) k || contains (link_keys x.channels) k)
  unfolding join_events unique_event_channels
  join_events-keys x e k =
      joined_keys (is_offered words size lower matches) (channel_key words size lower matches)
        (ltb (sports_event_listing_rank words size lower matches x)
          (sports_event_listing_rank words size lower matches e))
        x e k

  has_channel-if :
      (b : Bool) (xs ys : List SportsEvent) (k : String) (v : Bool)
      → has_channel k xs ≡ v
      → has_channel k ys ≡ v
      → has_channel k (if b then xs else ys) ≡ v
  has_channel-if true xs ys k v h g = h
  has_channel-if false xs ys k v h g = g

  absorb-has_channel :
      (e : SportsEvent) (es : List SportsEvent) (k : String)
      → has_channel k (absorb words size lower matches e es)
        ≡ (contains (link_keys e.channels) k || has_channel k es)
  unfolding absorb
  absorb-has_channel e [] k = refl
  absorb-has_channel e (x ∷ xs) k =
      let of_e = contains (link_keys e.channels) k in
      let of_x = contains (link_keys x.channels) k in
      has_channel-if (sports_events_same_matchup words size lower matches x e)
        (join_events words size lower matches x e ∷ xs) (x ∷ absorb words size lower matches e xs) k
        (of_e || (of_x || has_channel k xs))
        (ap (λ b. b || has_channel k xs) (join_events-keys x e k)
          ∙ or_swap of_e of_x (has_channel k xs))
        (ap (λ b. of_x || b) (absorb-has_channel e xs k) ∙ or_move of_e of_x (has_channel k xs))

  collapse_onto-has_channel :
      (collapsed es : List SportsEvent) (k : String)
      → has_channel k (collapse_onto words size lower matches collapsed es)
        ≡ (has_channel k collapsed || has_channel k es)
  unfolding collapse_onto
  collapse_onto-has_channel collapsed [] k = sym (or_false_right (has_channel k collapsed))
  collapse_onto-has_channel collapsed (e ∷ es) k =
      let of_e = contains (link_keys e.channels) k in
      collapse_onto-has_channel (absorb words size lower matches e collapsed) es k
      ∙ ap (λ b. b || has_channel k es) (absorb-has_channel e collapsed k)
      ∙ or_swap of_e (has_channel k collapsed) (has_channel k es)
      ∙ or_move (has_channel k collapsed) of_e (has_channel k es)

  -- When the listings of one game are joined, no channel is lost and none is added: a channel
  -- that may be shown is one of a joined event exactly when it is one of a listed event, whatever
  -- the names of the teams are split into.
  pub collapse_equivalent_sports_events-has_channel :
      (events : List SportsEvent) (k : String)
      → has_channel k (collapse_equivalent_sports_events words size lower matches events)
        ≡ has_channel k events
  unfolding collapse_equivalent_sports_events
  collapse_equivalent_sports_events-has_channel events k = collapse_onto-has_channel [] events k
