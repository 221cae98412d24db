-- ===== src/Companion/Replies.antt =====
-- What ticks, replies and failures do to the buffer, in any order.
use silo_plugin_dispatcharr.Base.{
  ℕ, ◌+◌, String, ◌≡◌, refl, ◌∙◌, ◌≢◌, ◌⊎◌, inl, inr, Bool, true, false, ◌&&◌, ◌||◌, not, Option,
  none, some, List, [], ◌∷◌, arith, nat_beq, if◌then◌else◌, string_eq, nat_eq, ◌==◌, contains,
}
use silo_plugin_dispatcharr.Companion.Buffer.{Buffer, new_buffer, push, IsBuffer}
use silo_plugin_dispatcharr.Companion.Delay.{push-IsBuffer, All-later}
use silo_plugin_dispatcharr.Companion.Polling.{
  Companion, Request, Found, has_controller, is_recent, stop_sports_companion, change_event,
  begin_request, tick, start_sports_companion, end_request, receive_stats, fail_stats, Polling,
  Event, starts, stops, ticks, waits, replies, fails, happen,
}

empty-IsBuffer : (Data : Type 0) (now : ℕ) → IsBuffer now (new_buffer Data)
unfolding new_buffer
empty-IsBuffer Data now = (omega arith, tt, tt)

module _ {Data : Type 0} where
  -- The buffer is good at a time, and what it holds is of the current game; a request that counts as
  -- pending has a controller.
  pub record IsPolling (now : ℕ) (s : Companion Data) : Type 0 where
    pub buffer : IsBuffer now s.buffer
    pub game : (s.buffer.snapshots ≡ []) ⊎ (s.buffer.game ≡ s.event)
    pub pending : s.pending ≡ true → s.abort ≢ none

  stop_sports_companion-IsPolling :
      (now : ℕ) (s : Companion Data) → IsPolling now (stop_sports_companion s)
  unfolding stop_sports_companion new_buffer
  stop_sports_companion-IsPolling now s = record {
    buffer = empty-IsBuffer Data now;
    game = inl refl;
    pending = λ e. absurd (ground arith);
  }

  change_event-IsPolling :
      (now : ℕ) (event : String) (s : Companion Data) → IsPolling now (change_event event s)
  unfolding change_event new_buffer
  change_event-IsPolling now event s = record {
    buffer = empty-IsBuffer Data now;
    game = inl refl;
    pending = λ e. absurd (ground arith);
  }

  begin_request-IsPolling :
      (now generation : ℕ) (event : String) (s : Companion Data)
      → IsPolling now s
      → IsPolling now (begin_request generation now event s).0
  unfolding begin_request
  begin_request-IsPolling now generation event s h = record {
    buffer = h.buffer;
    game = h.game;
    pending = λ e k. ground arith;
  }

  IsPolling-if :
      (now : ℕ) (b : Bool) (p q : Companion Data × List Request)
      → IsPolling now p.0
      → IsPolling now q.0
      → IsPolling now (if b then p else q).0
  IsPolling-if now true p q h k = h
  IsPolling-if now false p q h k = k

  IsPolling-or :
      (now : ℕ) (b : Bool) (p q : Companion Data)
      → (b ≡ true → IsPolling now p)
      → (b ≡ false → IsPolling now q)
      → IsPolling now (if b then p else q)
  IsPolling-or now true p q h k = h refl
  IsPolling-or now false p q h k = k refl

  tick-IsPolling :
      (generation now : ℕ) (found : Found) (s : Companion Data)
      → IsPolling now s
      → IsPolling now (tick generation now found s).0
  unfolding tick
  tick-IsPolling generation now found s h =
      let current = if found.event == s.event then s else change_event found.event s in
      let k : IsPolling now current =
        IsPolling-or now (found.event == s.event) s (change_event found.event s) (λ e. h)
          (λ e. change_event-IsPolling now found.event s) in
      IsPolling-if now (not found.in_player) (stop_sports_companion s, []) _
        (stop_sports_companion-IsPolling now s)
        (IsPolling-if now found.hidden (s, []) _ h
          (IsPolling-if now
            (found.event == "" || current.pending || is_recent now current.last_fetch) (current, [])
            (begin_request generation now found.event current) k
            (begin_request-IsPolling now generation found.event current k)))

  armed-IsPolling :
      (now : ℕ) (timer : Option ℕ) (s : Companion Data)
      → IsPolling now s
      → IsPolling now (record s { timer = timer })
  armed-IsPolling now timer s h = record { buffer = h.buffer; game = h.game; pending = h.pending }

  start_sports_companion-IsPolling :
      (active : Bool) (now : ℕ) (found : Found) (s : Companion Data)
      → IsPolling now (start_sports_companion active now found s).0
  unfolding start_sports_companion
  start_sports_companion-IsPolling active now found s =
      let stopped = stop_sports_companion s in
      let h = stop_sports_companion-IsPolling now s in
      let ticked = tick stopped.generation now found stopped in
      IsPolling-if now (not active) (stopped, []) _ h
        (armed-IsPolling now (some stopped.generation) ticked.0
          (tick-IsPolling stopped.generation now found stopped h))

  end_request-IsPolling :
      (now : ℕ) (r : Request) (s : Companion Data)
      → IsPolling now s
      → IsPolling now (end_request r s)
  unfolding end_request
  end_request-IsPolling now r s h =
      IsPolling-or now (has_controller s.abort r.controller) _ s
        (λ e. record { buffer = h.buffer; game = h.game; pending = λ k. absurd (ground arith) })
        (λ e. h)

  push-game :
      (game : String) (data_ : Data) (now : ℕ) (b : Buffer Data)
      → (push game data_ now b).game ≡ game
  unfolding push
  push-game game data_ now b = refl

  same_event :
      (r : Request) (s : Companion Data)
      → (not (nat_beq r.generation s.generation)
          || not (r.event == s.event)
          || contains s.aborted r.controller)
        ≡ false
      → r.event ≡ s.event
  same_event r s e = ground (arith, string_eq.beq_iff r.event s.event)

  receive_stats-IsPolling :
      (useful : Data → Bool) (now : ℕ) (r : Request) (data_ : Data) (s : Companion Data)
      → IsPolling now s
      → IsPolling now (receive_stats useful now r data_ s)
  unfolding receive_stats
  receive_stats-IsPolling useful now r data_ s h = end_request-IsPolling now r _ (
      IsPolling-or now
        (not (nat_beq r.generation s.generation)
          || not (r.event == s.event)
          || contains s.aborted r.controller)
        s _ (λ e. h)
        (λ e.
          IsPolling-or now (useful data_) _ _
            (λ k. record {
              buffer = push-IsBuffer r.event data_ now now s.buffer (omega arith) h.buffer;
              game = inr (push-game r.event data_ now s.buffer ∙ same_event r s e);
              pending = h.pending;
            })
            (λ k. record { buffer = h.buffer; game = h.game; pending = h.pending })))

  fail_stats-IsPolling :
      (now : ℕ) (r : Request) (s : Companion Data)
      → IsPolling now s
      → IsPolling now (fail_stats r s)
  unfolding fail_stats
  fail_stats-IsPolling now r s h = end_request-IsPolling now r _ (
      IsPolling-or now
        (nat_beq r.generation s.generation
          && has_controller s.abort r.controller
          && r.event == s.event)
        _ s (λ e. record { buffer = h.buffer; game = h.game; pending = h.pending }) (λ e. h))

  later-IsPolling : (now n : ℕ) (s : Companion Data) → IsPolling now s → IsPolling (now + n) s
  later-IsPolling now n s h = record {
    buffer = (
      h.buffer.0,
      All-later now (now + n) s.buffer.snapshots (omega arith) h.buffer.1,
      h.buffer.2,
    );
    game = h.game;
    pending = h.pending;
  }

  happen-IsPolling :
      (useful : Data → Bool) (e : Event Data) (s : Polling Data)
      → IsPolling s.now s.companion
      → IsPolling (happen useful e s).now (happen useful e s).companion
  unfolding happen
  happen-IsPolling useful (starts active found) s h =
      start_sports_companion-IsPolling active s.now found s.companion
  happen-IsPolling useful stops s h = stop_sports_companion-IsPolling s.now s.companion
  happen-IsPolling useful (ticks g found) s h = tick-IsPolling g s.now found s.companion h
  happen-IsPolling useful (waits n) s h = later-IsPolling s.now n s.companion h
  happen-IsPolling useful (replies r data_) s h =
      receive_stats-IsPolling useful s.now r data_ s.companion h
  happen-IsPolling useful (fails r) s h = fail_stats-IsPolling s.now r s.companion h

  abbrev pub happens : (Data → Bool) → List (Event Data) → Polling Data → Polling Data
  happens useful [] s = s
  happens useful (e ∷ es) s = happens useful es (happen useful e s)

  -- From a companion whose buffer has at most 32 snapshots, in the order of their times and none
  -- of a later time, which are of the game that is shown, in whatever order it starts, stops,
  -- ticks, and requests are answered or fail, the buffer stays so; and if a request that counts
  -- as pending had its controller before, it has it after.
  pub happens-IsPolling :
      (useful : Data → Bool) (es : List (Event Data)) (s : Polling Data)
      → IsPolling s.now s.companion
      → IsPolling (happens useful es s).now (happens useful es s).companion
  happens-IsPolling useful [] s h = h
  happens-IsPolling useful (e ∷ es) s h =
      happens-IsPolling useful es (happen useful e s) (happen-IsPolling useful e s h)
