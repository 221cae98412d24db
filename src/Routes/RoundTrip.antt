-- ===== src/Routes/RoundTrip.antt =====
-- Addresses that are written and read back.
use silo_plugin_dispatcharr.Base.{
  String, ◌≡◌, refl, sym, ap, ◌∙◌, inl, inr, Bool, true, false, ◌&&◌, ◌||◌, not, Option, some, List,
  [], ◌∷◌, arith, if◌then◌else◌, Bool-cases, drop, All, string_eq, nat_eq, ◌==◌, beq_sym, contains,
  All-contains,
}
use silo_plugin_dispatcharr.Routes.State.{
  Snapshot, sports_detail, only_view, or_else, page_views, other_views, Site, part, app_route_hash,
  read_sports_route, sports_parts, read_app_route_parts, read_app_route_hash,
}
use silo_plugin_dispatcharr.Routes.Hash.{route_words, hash_plain}

-- What of a page its address keeps.
abbrev pub kept : Snapshot → Snapshot
kept s =
    if s.view == "admin"
    then record (only_view "admin") { admin_tab = or_else s.admin_tab "source" }
    else if s.view == "player" && not (s.channel_id == "")
    then record (only_view "player") { channel_id = s.channel_id }
    else if s.view == "sports"
    then record (only_view "sports") {
      sports_tab = or_else s.sports_tab "today";
      sports_event = s.sports_event;
      sports_team = if s.sports_event == "" then s.sports_team else "";
      sports_league = if s.sports_event == "" && s.sports_team == "" then s.sports_league else "";
    }
    else if s.view == "events"
    then record (only_view "events") {
      events_tab = or_else s.events_tab "upcoming";
      event_category = s.event_category;
    }
    else if s.view == "live" && not (s.category == "")
    then record (only_view "live") { category = s.category }
    else only_view (if contains page_views s.view then s.view else "home")

-- A sports page on its own path has a tab that is none of the other views.
abbrev pub IsReadable : Site → Snapshot → Type 0
IsReadable site s =
    site.is_sports_path ≡ true
    → s.view ≡ "sports"
    → contains ("watch" ∷ other_views) (or_else s.sports_tab "today") ≡ false

module _ (encode : String → String) (decode : String → Option String) (site : Site) where
  abbrev read_route : List String → Snapshot
  read_route = read_app_route_parts encode decode site

  read_if :
      (b : Bool) (x y : List String) (u v : Snapshot)
      → (b ≡ true → read_route x ≡ u)
      → (b ≡ false → read_route y ≡ v)
      → read_route (if b then x else y) ≡ (if b then u else v)
  read_if true x y u v h k = h refl
  read_if false x y u v h k = k refl

  read_both :
      (b : Bool) (x y : List String) (u : Snapshot)
      → (b ≡ true → read_route x ≡ u)
      → (b ≡ false → read_route y ≡ u)
      → read_route (if b then x else y) ≡ u
  read_both true x y u h k = h refl
  read_both false x y u h k = k refl

  abbrev sports_page : Snapshot → Snapshot
  sports_page s = record (only_view "sports") {
    sports_tab = or_else s.sports_tab "today";
    sports_event = s.sports_event;
    sports_team = if s.sports_event == "" then s.sports_team else "";
    sports_league = if s.sports_event == "" && s.sports_team == "" then s.sports_league else "";
  }

  -- The parts of a sports route, by its texts.
  abbrev detail : String → String → String → List String
  detail event team league =
      if not (event == "")
      then "event" ∷ event ∷ []
      else if not (team == "")
      then "team" ∷ team ∷ []
      else if not (league == "")
      then "league" ∷ league ∷ []
      else []

  abbrev page_of : String → String → String → String → Snapshot
  page_of tab event team league = record (only_view "sports") {
    sports_tab = tab;
    sports_event = event;
    sports_team = if event == "" then team else "";
    sports_league = if event == "" && team == "" then league else "";
  }

  read_detail :
      (tab event team league : String)
      → (tab == "") ≡ false
      → read_sports_route encode decode site (tab ∷ detail event team league)
        ≡ page_of tab event team league
  unfolding read_sports_route
  read_detail tab event team league h = rw h (elim (Bool-cases (event == "")) [
    | inr k ↦ rw k refl
    | inl k ↦ rw ((string_eq.beq_iff event "").0 k) (elim (Bool-cases (team == "")) [
      | inr l ↦ rw l refl
      | inl l ↦ rw ((string_eq.beq_iff team "").0 l) (elim (Bool-cases (league == "")) [
        | inr m ↦ rw m refl
        | inl m ↦ rw ((string_eq.beq_iff league "").0 m) refl
      ])
    ])
  ])

  or_else-nonempty : (a b : String) → (b == "") ≡ false → (or_else a b == "") ≡ false
  or_else-nonempty a b h = ground arith

  read_sports :
      (s : Snapshot)
      → read_sports_route encode decode site
          (or_else s.sports_tab "today" ∷ sports_detail (λ x. x) some site s)
        ≡ sports_page s
  read_sports s =
      read_detail (or_else s.sports_tab "today") s.sports_event s.sports_team s.sports_league
        (or_else-nonempty s.sports_tab "today" refl)

  read_view : (v : String) → contains page_views v ≡ true → read_route (v ∷ []) ≡ only_view v
  unfolding read_app_route_parts sports_parts
  read_view v e =
      elim site.is_sports_path
        as (λ b.
          let at = record site { is_sports_path = b } in
          read_app_route_parts encode decode at (v ∷ []) ≡ only_view v) [
            | true ↦
                All-contains
                  (λ w.
                    read_app_route_parts encode decode (record site { is_sports_path = true })
                      (w ∷ [])
                    ≡ only_view w)
                  page_views v
                  (refl, (refl, (refl, (refl, (refl, (refl, (refl, (refl, (refl, (refl, tt))))))))))
                  e
            | false ↦
                All-contains
                  (λ w.
                    read_app_route_parts encode decode (record site { is_sports_path = false })
                      (w ∷ [])
                    ≡ only_view w)
                  page_views v
                  (refl, (refl, (refl, (refl, (refl, (refl, (refl, (refl, (refl, (refl, tt))))))))))
                  e
          ]

  or_false : (a b : Bool) → (a || b) ≡ false → (a ≡ false) × (b ≡ false)
  or_false a b h = ground arith

  sports_tab_route :
      (tab : String) (rest : List String)
      → contains ("watch" ∷ other_views) tab ≡ false
      → site.is_sports_path ≡ true
      → read_route (tab ∷ rest) ≡ read_sports_route encode decode site (tab ∷ rest)
  unfolding read_app_route_parts sports_parts
  sports_tab_route tab rest h e =
      let apart = or_false ("watch" == tab) (contains other_views tab) h in
      let home = or_false ("home" == tab) (contains (drop 1 other_views) tab) apart.1 in
      let channels = or_false ("channels" == tab) (contains (drop 2 other_views) tab) home.1 in
      let others = apart.1 in
      let no_watch : (tab == "watch") ≡ false = beq_sym tab "watch" ∙ apart.0 in
      let no_channels : (tab == "channels") ≡ false = beq_sym tab "channels" ∙ channels.0 in
      rw no_watch (rw no_channels (rw e (rw others refl)))

  sports_route :
      (rest : List String)
      → site.is_sports_path ≡ false
      → read_route ("sports" ∷ rest) ≡ read_sports_route encode decode site rest
  unfolding read_app_route_parts sports_parts
  sports_route rest e = rw e refl

  events_route :
      (tab category : String)
      → (tab == "") ≡ false
      → read_route
          ("events" ∷ tab ∷ (if not (category == "") then "category" ∷ category ∷ [] else []))
        ≡ record (only_view "events") { events_tab = tab; event_category = category }
  unfolding read_app_route_parts sports_parts
  events_route tab category h =
      elim site.is_sports_path
        as (λ b.
          let at = record site { is_sports_path = b } in
          read_app_route_parts encode decode at
            ("events" ∷ tab ∷ (if not (category == "") then "category" ∷ category ∷ [] else []))
          ≡ record (only_view "events") { events_tab = tab; event_category = category }) [
            | true ↦ rw h (elim (Bool-cases (category == "")) [
              | inr k ↦ rw k refl
              | inl k ↦ rw ((string_eq.beq_iff category "").0 k) refl
            ])
            | false ↦ rw h (elim (Bool-cases (category == "")) [
              | inr k ↦ rw k refl
              | inl k ↦ rw ((string_eq.beq_iff category "").0 k) refl
            ])
          ]

  channel_route :
      (id : String)
      → read_route ("watch" ∷ id ∷ []) ≡ record (only_view "player") { channel_id = id }
  unfolding read_app_route_parts
  channel_route id = refl

  category_route :
      (c : String)
      → (c == "") ≡ false
      → read_route ("channels" ∷ c ∷ []) ≡ record (only_view "live") { category = c }
  unfolding read_app_route_parts
  category_route c h = rw h refl

  view_route :
      (v : String)
      → read_route ((if contains page_views v then v else "home") ∷ [])
        ≡ only_view (if contains page_views v then v else "home")
  view_route v = elim (Bool-cases (contains page_views v)) [
    | inl e ↦ rw e (read_view v e)
    | inr e ↦ rw e (read_view "home" refl)
  ]

  both_false : (a b : Bool) → (a && not b) ≡ true → b ≡ false
  both_false a b h = ground arith

  is_view : (a b : String) → (a == b) ≡ true → a ≡ b
  is_view a b = (string_eq.beq_iff a b).0

  read_plain :
      (s : Snapshot)
      → IsReadable site s
      → (s.view == "admin") ≡ false
      → read_route (app_route_hash (λ x. x) some site s) ≡ kept s
  unfolding app_route_hash
  read_plain s h a = rw a (
      read_if (s.view == "player" && not (s.channel_id == "")) _ _ _ _
        (λ k. channel_route s.channel_id)
        (λ k.
          read_if (s.view == "sports") _ _ _ _
            (λ l.
              read_both site.is_sports_path
                (or_else s.sports_tab "today" ∷ sports_detail (λ x. x) some site s)
                ("sports" ∷ or_else s.sports_tab "today" ∷ sports_detail (λ x. x) some site s)
                (sports_page s)
                (λ m.
                  sports_tab_route (or_else s.sports_tab "today")
                    (sports_detail (λ x. x) some site s) (h m (is_view s.view "sports" l)) m
                  ∙ read_sports s)
                (λ m.
                  sports_route (or_else s.sports_tab "today" ∷ sports_detail (λ x. x) some site s) m
                  ∙ read_sports s))
            (λ l.
              read_if (s.view == "events") _ _ _ _
                (λ m.
                  events_route (or_else s.events_tab "upcoming") s.event_category
                    (or_else-nonempty s.events_tab "upcoming" refl))
                (λ m.
                  read_if (s.view == "live" && not (s.category == "")) _ _ _ _
                    (λ n.
                      category_route s.category
                        (both_false (s.view == "live") (s.category == "") n))
                    (λ n. view_route s.view)))))

-- The admin page reads its tab.
abbrev read_parts : (String → String) → (String → Option String) → Site → List String → Snapshot
read_parts encode decode site parts =
    if site.is_admin_route
    then record (only_view "admin") {
      admin_tab = if part 0 parts == "admin" then or_else (part 1 parts) "source" else "source";
    }
    else read_app_route_parts encode decode site parts

if_true : {A : Type 0} (b : Bool) (x y : A) → b ≡ true → (if b then x else y) ≡ x
if_true true x y e = refl
if_true false x y e = ground arith

if_false : {A : Type 0} (b : Bool) (x y : A) → b ≡ false → (if b then x else y) ≡ y
if_false true x y e = ground arith
if_false false x y e = refl

abbrev admin_page : Site → List String → Snapshot
admin_page site parts = record (only_view "admin") {
  admin_tab = if part 0 parts == "admin" then or_else (part 1 parts) "source" else "source";
}

or_else-twice : (a b : String) → or_else (or_else a b) b ≡ or_else a b
or_else-twice a b = ground arith

read_parts_plain :
    (encode : String → String) (decode : String → Option String) (site : Site) (s : Snapshot)
    → (s.view == "admin") ≡ site.is_admin_route
    → IsReadable site s
    → read_parts encode decode site (app_route_hash (λ x. x) some site s) ≡ kept s
unfolding app_route_hash
read_parts_plain encode decode site s a h =
    let hash = app_route_hash (λ x. x) some site s in
    let page : Snapshot = record (only_view "admin") {
      admin_tab = if part 0 hash == "admin" then or_else (part 1 hash) "source" else "source";
    } in
    let other = read_app_route_parts encode decode site hash in
    elim (Bool-cases (s.view == "admin")) [
      | inl e ↦
          if_true site.is_admin_route page other (sym a ∙ e)
          ∙ ap (admin_page site) (if_true (s.view == "admin") _ _ e)
          ∙ ap (λ t. record (only_view "admin") { admin_tab = t })
              (or_else-twice s.admin_tab "source")
          ∙ sym (if_true (s.view == "admin") _ _ e)
      | inr e ↦
          if_false site.is_admin_route page other (sym a ∙ e) ∙ read_plain encode decode site s h e
    ]

-- The address of a page, read back, gives the page with what an address keeps, when decoding
-- undoes encoding and leaves the words of the addresses alone, the admin view is on the admin
-- route and nowhere else, and on the path of sports a sports tab is not named like another view.
pub read_app_route_hash-app_route_hash :
    (encode : String → String) (decode : String → Option String)
    → ((s : String) → decode (encode s) ≡ some s)
    → decode "" ≡ some ""
    → All (λ w. decode w ≡ some w) route_words
    → (site : Site) (s : Snapshot) → (s.view == "admin") ≡ site.is_admin_route
    → IsReadable site s
    → read_app_route_hash encode decode site (app_route_hash encode decode site s) ≡ kept s
unfolding read_app_route_hash
read_app_route_hash-app_route_hash encode decode encoded empty words site s a h =
    ap (read_parts encode decode site) (hash_plain encode decode encoded empty words site s)
    ∙ read_parts_plain encode decode site s a h
