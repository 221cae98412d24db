-- ===== src/Routes/Sports.antt =====
-- The addresses of the sports pages.
use silo_plugin_dispatcharr.Base.{
  String, ◌≡◌, refl, sym, ap, ◌∙◌, Bool, true, false, ◌||◌, not, List, [], ◌∷◌, arith,
  if◌then◌else◌, string_eq, nat_eq, ◌==◌, beq_sym, contains, All-contains,
}
use mathlib.Core.Path.{subst}
use silo_plugin_dispatcharr.Routes.State.{or_else, other_views, Site}
use silo_plugin_dispatcharr.Routes.RoundTrip.{IsReadable}
use silo_plugin_dispatcharr.Routes.Navigation.{
  Page, app_route_snapshot, sports_hub_tabs, sports_hub_tab, set_sports_tab, open_sports_league,
  open_sports_team, open_sports_event, back_from_sports_detail, Click, tab_click, league_click,
  team_click, event_click, back_click, click, clicks,
}

-- On the sports path `mytv` is no view, so an event is opened from a sports page.
abbrev pub known_tabs : List String
known_tabs = "replays" ∷ sports_hub_tabs

pub record IsSportsPage (p : Page) : Type 0 where
  pub tab : contains known_tabs (or_else p.sports_tab "today") ≡ true
  pub no_mytv : (p.view == "mytv") ≡ false

abbrev IsKnown : String → Type 0
IsKnown tab = contains known_tabs (or_else tab "today") ≡ true

IsKnown-tab : (tab : String) → contains known_tabs tab ≡ true → IsKnown tab
IsKnown-tab tab h =
    let full : (tab == "") ≡ false =
      All-contains (λ t. (t == "") ≡ false) known_tabs tab
        (refl, (refl, (refl, (refl, (refl, (refl, tt)))))) h in
    rw full h

IsKnown-if :
    (b : Bool) (s t : String)
    → (b ≡ true → IsKnown s)
    → (b ≡ false → IsKnown t)
    → IsKnown (if b then s else t)
IsKnown-if true s t h k = h refl
IsKnown-if false s t h k = k refl

if_page :
    (b : Bool) (p q : Page) → IsSportsPage p → IsSportsPage q → IsSportsPage (if b then p else q)
if_page true p q h k = h
if_page false p q h k = k

if_false_page : (b : Bool) (p q : Page) → b ≡ false → (if b then p else q) ≡ q
if_false_page true p q e = ground arith
if_false_page false p q e = refl

sports_hub_tab-IsKnown : (tab : String) → IsKnown (sports_hub_tab tab)
unfolding sports_hub_tab
sports_hub_tab-IsKnown tab =
    IsKnown-if (tab == "replays" || contains sports_hub_tabs tab) tab _
      (λ e.
        IsKnown-tab tab (ap (λ b. b || contains sports_hub_tabs tab) (beq_sym "replays" tab) ∙ e))
      (λ e.
        IsKnown-if (tab == "live") "today" _ (λ k. refl)
          (λ k.
            IsKnown-if (tab == "upcoming") "scores" _ (λ l. refl)
              (λ l.
                IsKnown-if (tab == "all") "scores" _ (λ m. refl)
                  (λ m.
                    IsKnown-if (tab == "favorites") "mysports" "today" (λ n. refl) (λ n. refl)))))

click-IsSportsPage : (c : Click) (p : Page) → IsSportsPage p → IsSportsPage (click c p)
unfolding click set_sports_tab open_sports_league open_sports_team open_sports_event
    back_from_sports_detail
click-IsSportsPage (tab_click tab) p h = record {
  tab = sports_hub_tab-IsKnown tab;
  no_mytv = h.no_mytv;
}
click-IsSportsPage (league_click league) p h = record { tab = h.tab; no_mytv = h.no_mytv }
click-IsSportsPage (team_click key) p h = record { tab = h.tab; no_mytv = refl }
click-IsSportsPage (event_click event) p h =
    subst (λ q. IsSportsPage (record q { sports_event = event }))
      (sym (if_false_page (p.view == "mytv") _ p h.no_mytv))
      (record { tab = h.tab; no_mytv = h.no_mytv })
click-IsSportsPage back_click p h =
    if_page (not (p.sports_event == "")) _ _ (record { tab = h.tab; no_mytv = h.no_mytv })
      (if_page (not (p.sports_team == "")) _ _ (record { tab = h.tab; no_mytv = h.no_mytv })
        (record { tab = refl; no_mytv = h.no_mytv }))

clicks-IsSportsPage : (cs : List Click) (p : Page) → IsSportsPage p → IsSportsPage (clicks cs p)
clicks-IsSportsPage [] p h = h
clicks-IsSportsPage (c ∷ cs) p h = clicks-IsSportsPage cs (click c p) (click-IsSportsPage c p h)

known_readable :
    (tab : String) → contains known_tabs tab ≡ true → contains ("watch" ∷ other_views) tab ≡ false
known_readable tab h =
    All-contains (λ t. contains ("watch" ∷ other_views) t ≡ false) known_tabs tab
      (refl, (refl, (refl, (refl, (refl, (refl, tt)))))) h

-- On a page whose sports tab is known and whose view is not My TV, after any clicks on tabs,
-- leagues, teams, events and back, the address of the page can be read back.
pub clicks-IsReadable :
    (site : Site) (cs : List Click) (p : Page)
    → IsSportsPage p
    → IsReadable site (app_route_snapshot site (clicks cs p))
unfolding app_route_snapshot
clicks-IsReadable site cs p h e k =
    let q = clicks cs p in
    known_readable (or_else (or_else q.sports_tab "today") "today")
      (IsKnown-tab (or_else q.sports_tab "today") (clicks-IsSportsPage cs p h).tab)
