-- ===== src/Routes/Hash.antt =====
-- The parts of an address, encoded and decoded.
use silo_plugin_dispatcharr.Base.{
  String, ◌≡◌, refl, sym, ap, ◌∙◌, inl, inr, Bool, true, false, ◌&&◌, ◌||◌, not, Option, none, some,
  List, [], ◌∷◌, ◌++◌, map, arith, if◌then◌else◌, Bool-cases, filter, All, string_eq, nat_eq, ◌==◌,
  contains, contains-append, All-contains,
}
use silo_plugin_dispatcharr.Routes.State.{
  Snapshot, sports_detail, events_detail, or_else, page_views, Site, app_route_hash,
  read_app_route_part,
}

-- The words of an address that are not encoded.
abbrev plain_words : List String
plain_words =
    "admin" ∷ "watch" ∷ "sports" ∷ "event" ∷ "team" ∷ "league" ∷ "events" ∷ "category" ∷ []

abbrev pub route_words : List String
route_words = page_views ++ plain_words

page_view-nonempty : (v : String) → contains page_views v ≡ true → (v == "") ≡ false
page_view-nonempty v e =
    All-contains (λ w. (w == "") ≡ false) page_views v
      (refl, (refl, (refl, (refl, (refl, (refl, (refl, (refl, (refl, (refl, tt)))))))))) e

module _ (encode : String → String) (decode : String → Option String)
    (encoded : (s : String) → decode (encode s) ≡ some s) (empty : decode "" ≡ some "")
    (words : All (λ w. decode w ≡ some w) route_words) (site : Site) where
  nonempty_encoded : (s : String) → (s == "") ≡ false → (encode s == "") ≡ false
  nonempty_encoded s h = elim (Bool-cases (encode s == "")) [
    | inl e ↦
        let same : encode s ≡ "" = (string_eq.beq_iff (encode s) "").0 e in
        let both : some "" ≡ some s = sym empty ∙ ap decode (sym same) ∙ encoded s in
        absurd (ground (arith, both, string_eq.beq_iff s ""))
    | inr e ↦ e
  ]

  -- The parts of a hash as they are read.
  abbrev pub clean : List String → List String
  clean raw = map (read_app_route_part encode decode site) (filter (λ p. not (p == "")) raw)

  read_decoded : (t u : String) → decode t ≡ some u → read_app_route_part encode decode site t ≡ u
  unfolding read_app_route_part
  read_decoded t u e = ap (λ o. elim o as (λ _. String) [ none ↦ "" | some t ↦ t ]) e

  clean_decoded :
      (t u : String) (rest : List String)
      → (t == "") ≡ false
      → decode t ≡ some u
      → clean (t ∷ rest) ≡ u ∷ clean rest
  clean_decoded t u rest h e = rw h (ap (λ x. x ∷ clean rest) (read_decoded t u e))

  clean_encoded :
      (s : String) (rest : List String)
      → (s == "") ≡ false
      → clean (encode s ∷ rest) ≡ s ∷ clean rest
  clean_encoded s rest h = clean_decoded (encode s) s rest (nonempty_encoded s h) (encoded s)

  word : (w : String) → contains route_words w ≡ true → decode w ≡ some w
  word w h = All-contains (λ w. decode w ≡ some w) route_words w words h

  clean_word :
      (w : String) (rest : List String)
      → (w == "") ≡ false
      → contains route_words w ≡ true
      → clean (w ∷ rest) ≡ w ∷ clean rest
  clean_word w rest h e = clean_decoded w w rest h (word w e)

  clean_view :
      (v : String)
      → clean ((if contains page_views v then v else "home") ∷ [])
        ≡ (if contains page_views v then v else "home") ∷ []
  clean_view v = elim (Bool-cases (contains page_views v)) [
    | inl e ↦ rw e (
        clean_word v [] (page_view-nonempty v e)
          (contains-append page_views plain_words v ∙ ap (λ b. b || contains plain_words v) e))
    | inr e ↦ rw e (clean_word "home" [] refl refl)
  ]

  or_else-nonempty : (a b : String) → (b == "") ≡ false → (or_else a b == "") ≡ false
  or_else-nonempty a b h = ground arith

  -- A name and what it names.
  clean_named :
      (w s : String)
      → (w == "") ≡ false
      → contains route_words w ≡ true
      → clean (if not (s == "") then w ∷ encode s ∷ [] else [])
        ≡ (if not (s == "") then w ∷ s ∷ [] else [])
  clean_named w s h e = elim (Bool-cases (s == "")) [
    | inl k ↦ rw k refl
    | inr k ↦ rw k (clean_word w (encode s ∷ []) h e ∙ ap (◌∷◌ w) (clean_encoded s [] k))
  ]

  abbrev pub plain : Snapshot → List String
  plain s = app_route_hash (λ x. x) some site s

  clean_sports :
      (s : Snapshot)
      → clean (
          if not (s.sports_event == "")
          then "event" ∷ encode s.sports_event ∷ []
          else if not (s.sports_team == "")
          then "team" ∷ encode s.sports_team ∷ []
          else if not (s.sports_league == "")
          then "league" ∷ encode s.sports_league ∷ []
          else [])
        ≡ (if not (s.sports_event == "")
            then "event" ∷ s.sports_event ∷ []
            else if not (s.sports_team == "")
            then "team" ∷ s.sports_team ∷ []
            else if not (s.sports_league == "")
            then "league" ∷ s.sports_league ∷ []
            else [])
  clean_sports s = ground (
    arith,
    clean_word "event" (encode s.sports_event ∷ []) refl refl,
    clean_word "team" (encode s.sports_team ∷ []) refl refl,
    clean_word "league" (encode s.sports_league ∷ []) refl refl,
    clean_encoded s.sports_event [],
    clean_encoded s.sports_team [],
    clean_encoded s.sports_league [],
  )

  clean_if :
      (b : Bool) (x y u v : List String)
      → (b ≡ true → clean x ≡ u)
      → (b ≡ false → clean y ≡ v)
      → clean (if b then x else y) ≡ (if b then u else v)
  clean_if true x y u v h k = h refl
  clean_if false x y u v h k = k refl

  clean_route :
      (s : Snapshot) (rest u : List String)
      → clean rest ≡ u
      → clean (encode (or_else s.sports_tab "today") ∷ rest) ≡ or_else s.sports_tab "today" ∷ u
  clean_route s rest u h =
      clean_encoded (or_else s.sports_tab "today") rest (or_else-nonempty s.sports_tab "today" refl)
      ∙ ap (◌∷◌ (or_else s.sports_tab "today")) h

  clean_pair :
      (w s : String)
      → (w == "") ≡ false
      → contains route_words w ≡ true
      → (s == "") ≡ false
      → clean (w ∷ encode s ∷ []) ≡ w ∷ s ∷ []
  clean_pair w s h e k = clean_word w (encode s ∷ []) h e ∙ ap (◌∷◌ w) (clean_encoded s [] k)

  both_false : (a b : Bool) → (a && not b) ≡ true → b ≡ false
  both_false a b h = ground arith

  pub hash_plain : (s : Snapshot) → clean (app_route_hash encode decode site s) ≡ plain s
  unfolding app_route_hash
  hash_plain s =
      let route =
        clean_route s (sports_detail encode decode site s) (sports_detail (λ x. x) some site s)
          (clean_sports s) in
      clean_if (s.view == "admin") _ _ _ _
        (λ e.
          clean_pair "admin" (or_else s.admin_tab "source") refl refl
            (or_else-nonempty s.admin_tab "source" refl))
        (λ e.
          clean_if (s.view == "player" && not (s.channel_id == "")) _ _ _ _
            (λ k.
              clean_pair "watch" s.channel_id refl refl
                (both_false (s.view == "player") (s.channel_id == "") k))
            (λ k.
              clean_if (s.view == "sports") _ _ _ _
                (λ l.
                  clean_if site.is_sports_path _ _ _ _ (λ m. route)
                    (λ m.
                      clean_word "sports"
                        (encode (or_else s.sports_tab "today") ∷ sports_detail encode decode site s)
                        refl refl
                      ∙ ap (◌∷◌ "sports") route))
                (λ l.
                  clean_if (s.view == "events") _ _ _ _
                    (λ m.
                      clean_word "events"
                        (encode (or_else s.events_tab "upcoming")
                          ∷ events_detail encode decode site s)
                        refl refl
                      ∙ ap (◌∷◌ "events") (
                          clean_encoded (or_else s.events_tab "upcoming")
                            (events_detail encode decode site s)
                            (or_else-nonempty s.events_tab "upcoming" refl)
                          ∙ ap (◌∷◌ (or_else s.events_tab "upcoming"))
                              (clean_named "category" s.event_category refl refl)))
                    (λ m.
                      clean_if (s.view == "live" && not (s.category == "")) _ _ _ _
                        (λ n.
                          clean_pair "channels" s.category refl refl
                            (both_false (s.view == "live") (s.category == "") n))
                        (λ n. clean_view s.view)))))
