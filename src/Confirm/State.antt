-- ===== src/Confirm/State.antt =====
-- The page with its question. A trigger is a button by its name, and a question, its group of
-- elements and its timer have one number. The options are the trigger's, and what `onConfirm` was
-- called with is the list `confirmed`, the last first.
use silo_plugin_dispatcharr.Base.{
  ℕ, suc, String, Bool, true, false, ◌&&◌, ◌||◌, not, Option, none, some, List, [], ◌∷◌,
  if◌then◌else◌, filter, string_eq, nat_eq, ◌==◌, contains,
}

pub record Entry : Type 0 where
  pub number : ℕ
  pub trigger : String

pub data Focus : Type 0 where
  elsewhere : Focus
  in_group : ℕ → Focus
  on_trigger : String → Focus

pub record Page : Type 0 where
  pub active : Option Entry
  pub groups : List Entry
  pub hidden : List String
  pub timers : List ℕ
  pub next : ℕ
  pub focus : Focus
  pub confirmed : List String

abbrev pub has_focus : ℕ → Focus → Bool
has_focus g elsewhere = false
has_focus g (in_group i) = g == i
has_focus g (on_trigger s) = false

-- The group with a number, when it is in the document.
abbrev pub group_of : ℕ → List Entry → Option Entry
group_of g [] = none
group_of g (e ∷ es) = if e.number == g then some e else group_of g es

abbrev pub is_active_entry : ℕ → Option Entry → Bool
is_active_entry g none = false
is_active_entry g (some e) = e.number == g

-- `clearTimeout` and `setTimeout`.
unfoldable pub arm : ℕ → Page → Page
arm g p = record p { timers = g ∷ filter (λ i. not (i == g)) p.timers }

-- Which triggers have a parent and stand in the document.
module _ (has_parent in_document : String → Bool) where
  abbrev pub close_entry : Bool → Entry → Page → Page
  close_entry restore e p =
      let refocus = (restore || has_focus e.number p.focus) && in_document e.trigger in
      record p {
        active = none;
        timers = filter (λ i. not (i == e.number)) p.timers;
        groups = filter (λ f. not (f.number == e.number)) p.groups;
        hidden = filter (λ s. not (s == e.trigger)) p.hidden;
        focus = if refocus then on_trigger e.trigger else p.focus;
      }

  unfoldable pub close_inline_confirm : Bool → Page → Page
  close_inline_confirm restore p = elim p.active [ none ↦ p | some e ↦ close_entry restore e p ]

  unfoldable pub open_inline_confirm : String → Page → Page
  unfolding close_inline_confirm arm
  open_inline_confirm trigger p =
      let c = close_inline_confirm false p in
      let e : Entry = record { number = c.next; trigger = trigger } in
      let shown = record c {
        active = some e;
        groups = e ∷ c.groups;
        hidden = trigger ∷ c.hidden;
        next = suc c.next;
        focus = in_group c.next;
      } in
      if has_parent trigger then arm c.next shown else p

  -- What happens: a button asks, Confirm or Cancel of a group is clicked, a key is pressed or a
  -- pointer goes down in a group, and the time of a timer is over.
  pub data Event : Type 0 where
    opens : String → Event
    clicks_yes : ℕ → Event
    clicks_no : ℕ → Event
    presses : ℕ → Bool → Event
    points : ℕ → Event
    elapses : ℕ → Event

  -- What the listener of a group does; there is none without the group.
  abbrev pub on_group : (Entry → Page → Page) → Option Entry → Page → Page
  on_group f none p = p
  on_group f (some e) p = f e p

  abbrev pub confirm : Entry → Page → Page
  confirm e p =
      let c = close_inline_confirm true p in record c { confirmed = e.trigger ∷ c.confirmed }

  unfoldable pub happen : Event → Page → Page
  unfolding open_inline_confirm close_inline_confirm arm
  happen (opens trigger) p = open_inline_confirm trigger p
  happen (clicks_yes g) p = on_group confirm (group_of g p.groups) p
  happen (clicks_no g) p = on_group (λ e q. close_inline_confirm true q) (group_of g p.groups) p
  happen (presses g is_escape) p =
      on_group (λ e q. if is_escape then close_inline_confirm true (arm g q) else arm g q)
        (group_of g p.groups) p
  happen (points g) p = on_group (λ e q. arm g q) (group_of g p.groups) p
  happen (elapses g) p =
      let q = record p { timers = filter (λ i. not (i == g)) p.timers } in
      if contains p.timers g
      then if is_active_entry g p.active then close_inline_confirm false q else q
      else p

  unfoldable pub happens : List Event → Page → Page
  unfolding happen
  happens [] p = p
  happens (e ∷ es) p = happens es (happen e p)
