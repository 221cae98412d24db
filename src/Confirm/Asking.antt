-- ===== src/Confirm/Asking.antt =====
-- The question as a viewer knows it: at most one at a time, and what was agreed to.
use silo_plugin_dispatcharr.Base.{
  ℕ, suc, String, ◌≡◌, refl, ap, ◌∙◌, inl, inr, Bool, true, false, Option, none, some, List, [],
  ◌∷◌, if◌then◌else◌, Bool-cases, string_eq, nat_eq, ◌==◌, beq_refl,
}
use mathlib.Core.Path.{subst}
use silo_plugin_dispatcharr.Confirm.State.{
  Entry, Page, Focus, Event, opens, clicks_yes, clicks_no, presses, points, elapses, arm,
  close_inline_confirm, open_inline_confirm, happen, happens,
}

pub record Question : Type 0 where
  pub asked : Option Entry
  pub next : ℕ
  pub agreed : List String

abbrev pub view : Page → Question
view p = record { asked = p.active; next = p.next; agreed = p.confirmed }

abbrev pub withdraw : Question → Question
withdraw q = record q { asked = none }

-- An answer to a question counts when it is the one that is asked.
abbrev pub answer_to : ℕ → (Entry → Question → Question) → Question → Question
answer_to g f q = elim q.asked [ none ↦ q | some e ↦ if e.number == g then f e q else q ]

module _ (has_parent in_document : String → Bool) where
  abbrev pub ask : Event has_parent in_document → Question → Question
  ask (opens trigger) q =
      if has_parent trigger
      then record q {
        asked = some (record { number = q.next; trigger = trigger });
        next = suc q.next;
      }
      else q
  ask (clicks_yes g) q =
      answer_to g (λ e r. record r { asked = none; agreed = e.trigger ∷ r.agreed }) q
  ask (clicks_no g) q = answer_to g (λ e r. withdraw r) q
  ask (presses g is_escape) q = if is_escape then answer_to g (λ e r. withdraw r) q else q
  ask (points g) q = q
  ask (elapses g) q = answer_to g (λ e r. withdraw r) q

  abbrev pub asks : List (Event has_parent in_document) → Question → Question
  asks [] q = q
  asks (e ∷ es) q = asks es (ask e q)

  -- Exactly the question that is asked has a group, a hidden trigger and a timer.
  pub record IsShown (p : Page) : Type 0 where
    pub groups : p.groups ≡ elim p.active [ none ↦ [] | some e ↦ e ∷ [] ]
    pub hidden : p.hidden ≡ elim p.active [ none ↦ [] | some e ↦ e.trigger ∷ [] ]
    pub timers : p.timers ≡ elim p.active [ none ↦ [] | some e ↦ e.number ∷ [] ]

  -- A page that shows its question, by what a viewer knows and where the focus is.
  abbrev shown : Option Entry → ℕ → Focus → List String → Page
  shown none next focus confirmed = record {
    active = none;
    groups = [];
    hidden = [];
    timers = [];
    next = next;
    focus = focus;
    confirmed = confirmed;
  }
  shown (some e) next focus confirmed = record {
    active = some e;
    groups = e ∷ [];
    hidden = e.trigger ∷ [];
    timers = e.number ∷ [];
    next = next;
    focus = focus;
    confirmed = confirmed;
  }

  abbrev Agrees : Event has_parent in_document → Page → Type 0
  Agrees ev p =
      IsShown (happen has_parent in_document ev p)
      × (view (happen has_parent in_document ev p) ≡ ask ev (view p))

  shown-IsShown :
      (a : Option Entry) (next : ℕ) (focus : Focus) (c : List String)
      → IsShown (shown a next focus c)
  shown-IsShown none next focus c = record { groups = refl; hidden = refl; timers = refl }
  shown-IsShown (some e) next focus c = record { groups = refl; hidden = refl; timers = refl }

  happen-none :
      (ev : Event has_parent in_document) (next : ℕ) (focus : Focus) (c : List String)
      → Agrees ev (shown none next focus c)
  unfolding happen close_inline_confirm open_inline_confirm arm
  happen-none (opens s) next focus c = elim (Bool-cases (has_parent s)) [
    | inl e ↦ rw e (shown-IsShown (some (record { number = next; trigger = s })) _ _ _, refl)
    | inr e ↦ rw e (shown-IsShown none _ _ _, refl)
  ]
  happen-none (clicks_yes g) next focus c = (shown-IsShown none _ _ _, refl)
  happen-none (clicks_no g) next focus c = (shown-IsShown none _ _ _, refl)
  happen-none (presses g true) next focus c = (shown-IsShown none _ _ _, refl)
  happen-none (presses g false) next focus c = (shown-IsShown none _ _ _, refl)
  happen-none (points g) next focus c = (shown-IsShown none _ _ _, refl)
  happen-none (elapses g) next focus c = (shown-IsShown none _ _ _, refl)

  -- What happens to the question itself.
  happen-itself :
      (e : Entry) (next : ℕ) (focus : Focus) (c : List String) (esc : Bool)
      → Agrees (presses e.number esc) (shown (some e) next focus c)
  unfolding happen close_inline_confirm open_inline_confirm arm
  happen-itself e next focus c true =
      rw (beq_refl e.number)
        (rw (beq_refl e.number) (rw (beq_refl e.trigger) (shown-IsShown none _ _ _, refl)))
  happen-itself e next focus c false =
      rw (beq_refl e.number) (rw (beq_refl e.number) (shown-IsShown (some e) _ _ _, refl))

  happen-some :
      (ev : Event has_parent in_document) (e : Entry) (next : ℕ) (focus : Focus) (c : List String)
      → Agrees ev (shown (some e) next focus c)
  unfolding happen close_inline_confirm open_inline_confirm arm
  happen-some (opens s) e next focus c = elim (Bool-cases (has_parent s)) [
    | inl h ↦
        rw (h, beq_refl e.number, beq_refl e.trigger)
          (shown-IsShown (some (record { number = next; trigger = s })) _ _ _, refl)
    | inr h ↦ rw h (shown-IsShown (some e) _ _ _, refl)
  ]
  happen-some (clicks_yes g) e next focus c = elim (Bool-cases (e.number == g)) [
    | inl h ↦ rw (h, beq_refl e.number, beq_refl e.trigger) (shown-IsShown none _ _ _, refl)
    | inr h ↦ rw h (shown-IsShown (some e) _ _ _, refl)
  ]
  happen-some (clicks_no g) e next focus c = elim (Bool-cases (e.number == g)) [
    | inl h ↦ rw (h, beq_refl e.number, beq_refl e.trigger) (shown-IsShown none _ _ _, refl)
    | inr h ↦ rw h (shown-IsShown (some e) _ _ _, refl)
  ]
  happen-some (presses g true) e next focus c = elim (Bool-cases (e.number == g)) [
    | inl h ↦
        subst (λ i. Agrees (presses i true) (shown (some e) next focus c))
          ((nat_eq.beq_iff e.number g).0 h) (happen-itself e next focus c true)
    | inr h ↦ rw h (shown-IsShown (some e) _ _ _, refl)
  ]
  happen-some (presses g false) e next focus c = elim (Bool-cases (e.number == g)) [
    | inl h ↦
        subst (λ i. Agrees (presses i false) (shown (some e) next focus c))
          ((nat_eq.beq_iff e.number g).0 h) (happen-itself e next focus c false)
    | inr h ↦ rw h (shown-IsShown (some e) _ _ _, refl)
  ]
  happen-some (points g) e next focus c = elim (Bool-cases (e.number == g)) [
    | inl h ↦
        subst (λ i. Agrees (points i) (shown (some e) next focus c))
          ((nat_eq.beq_iff e.number g).0 h) (happen-itself e next focus c false)
    | inr h ↦ rw h (shown-IsShown (some e) _ _ _, refl)
  ]
  happen-some (elapses g) e next focus c = elim (Bool-cases (e.number == g)) [
    | inl h ↦ rw (h, beq_refl e.trigger, beq_refl e.number) (shown-IsShown none _ _ _, refl)
    | inr h ↦ rw h (shown-IsShown (some e) _ _ _, refl)
  ]

  happen-built :
      (ev : Event has_parent in_document) (a : Option Entry) (groups : List Entry)
      (hidden : List String) (timers : List ℕ) (next : ℕ) (focus : Focus) (c : List String)
      → groups ≡ (elim a [ none ↦ [] | some e ↦ e ∷ [] ])
      → hidden ≡ (elim a [ none ↦ [] | some e ↦ e.trigger ∷ [] ])
      → timers ≡ (elim a [ none ↦ [] | some e ↦ e.number ∷ [] ])
      → Agrees ev (record {
        active = a;
        groups = groups;
        hidden = hidden;
        timers = timers;
        next = next;
        focus = focus;
        confirmed = c;
      })
  happen-built ev none groups hidden timers next focus c g h t =
      rw (g, h, t) (happen-none ev next focus c)
  happen-built ev (some e) groups hidden timers next focus c g h t =
      rw (g, h, t) (happen-some ev e next focus c)

  happen-Agrees : (ev : Event has_parent in_document) (p : Page) → IsShown p → Agrees ev p
  happen-Agrees ev p s =
      happen-built ev p.active p.groups p.hidden p.timers p.next p.focus p.confirmed s.groups
        s.hidden s.timers

  -- The page of the inline confirmation, with its groups of elements, hidden buttons, timers and
  -- focus, does what a viewer knows of it does: at most one question is asked, a new one takes
  -- its place, and an answer, Escape or a lapsed timer counts only for the question that is
  -- asked. From a page that shows its question, after any events, exactly that question has a
  -- group, a hidden button and a timer.
  pub happens-asks :
      (evs : List (Event has_parent in_document)) (p : Page)
      → IsShown p
      → IsShown (happens has_parent in_document evs p)
        × (view (happens has_parent in_document evs p) ≡ asks evs (view p))
  unfolding happens
  happens-asks [] p s = (s, refl)
  happens-asks (ev ∷ evs) p s =
      let step = happen-Agrees ev p s in
      let rest = happens-asks evs (happen has_parent in_document ev p) step.0 in
      (rest.0, rest.1 ∙ ap (asks evs) step.1)
