-- ===== src/Confirm/Tests.antt =====
-- A viewer who asks twice, agrees and lets a question lapse.
use silo_plugin_dispatcharr.Base.{
  String, ◌≡◌, refl, Bool, true, false, none, List, [], ◌∷◌, string_eq, nat_eq,
}
use silo_plugin_dispatcharr.Confirm.State.{
  Page, elsewhere, Event, opens, clicks_yes, presses, elapses, happens,
}
use silo_plugin_dispatcharr.Confirm.Asking.{IsShown, view, asks, happens-asks}

abbrev everywhere : String → Bool
everywhere s = true

abbrev empty_page : Page
empty_page = record {
  active = none;
  groups = [];
  hidden = [];
  timers = [];
  next = 0;
  focus = elsewhere;
  confirmed = [];
}

-- The second question takes the place of the first, whose Confirm is gone.
abbrev evening : List (Event everywhere everywhere)
evening =
    opens "delete a"
    ∷ opens "delete b"
    ∷ clicks_yes 0
    ∷ presses 1 false
    ∷ clicks_yes 1
    ∷ opens "delete c"
    ∷ elapses 2
    ∷ []

happens-asks_example :
    IsShown everywhere everywhere (happens everywhere everywhere evening empty_page)
    × (view (happens everywhere everywhere evening empty_page)
        ≡ asks everywhere everywhere evening (view empty_page))
happens-asks_example =
    happens-asks everywhere everywhere evening empty_page
      (record { groups = refl; hidden = refl; timers = refl })

only_b : (happens everywhere everywhere evening empty_page).confirmed ≡ "delete b" ∷ []
unfolding happens
only_b = refl
