-- ===== src/Errors/Causes.antt =====
-- Which text a viewer reads for which failure, with the sentences and the limits written out.
use silo_plugin_dispatcharr.Base.{
  ℕ, ◌≤◌, String, ◌≡◌, refl, ◌≢◌, ◌⊎◌, Bool, true, false, ◌&&◌, ◌||◌, not, Option, some, [], ◌∷◌,
  arith, leb, if◌then◌else◌, leb→le, string_eq, nat_eq, ◌==◌, contains,
}
use Prim.Native.String.{◌++◌ as concat}
use silo_plugin_dispatcharr.Errors.State.{
  first_rule, or_message, readable_error, general_error, is_plain, Failure, Wording, Pattern,
  unauthorized, html, unreachable, forbidden, timed_out, markup, no_network, readable_error_text,
}

module _ (w : Wording) (e : Failure) where
  -- A pattern is found in the text of the failure, in lower case.
  abbrev pub is_said : Pattern → Bool
  is_said p = w.finds p (w.lower (readable_error_text w e))

  -- The cause of each text: of a sentence, of a timeout's own text, of the text of a refused form,
  -- and of nothing.
  pub data IsCaused : String → Type 0 where
    session_over :
        e.status ≡ 401 → IsCaused "Your Silo session expired. Refresh the page or sign in again."
    timeout_text :
        e.timeout ≡ true → readable_error_text w e ≢ "" → IsCaused (readable_error_text w e)
    timeout_silent :
        e.timeout ≡ true
        → readable_error_text w e ≡ ""
        → IsCaused "The request took too long. Try again."
    slow :
        (e.status ≡ 408) ⊎ ((e.status ≡ 504) ⊎ (is_said timed_out ≡ true))
        → IsCaused "The request took too long. Try again."
    credentials_rejected :
        is_said unauthorized ≡ true
        → IsCaused
            "Dispatcharr rejected these credentials. Check the username and password or API key, and make sure nothing in front of Dispatcharr requires its own login."
    web_page_returned :
        is_said html ≡ true
        → IsCaused
            "Dispatcharr returned a web page instead of API data. The base URL may point at a login page or proxy instead of Dispatcharr."
    provider_away :
        (e.status ≡ 502) ⊎ ((e.status ≡ 503) ⊎ (is_said unreachable ≡ true))
        → IsCaused "Dispatcharr can't be reached right now. Try again in a few minutes."
    not_allowed :
        (e.status ≡ 403) ⊎ (is_said forbidden ≡ true)
        → IsCaused "You don't have permission to do that."
    missing : e.status ≡ 404 → IsCaused "That item is no longer available. Refresh and try again."
    throttled :
        e.status ≡ 429 → IsCaused "Too many requests right now. Wait a moment and try again."
    form_refused :
        (e.status ≡ 400) ⊎ (e.status ≡ 422)
        → readable_error_text w e ≢ ""
        → w.size (readable_error_text w e) ≤ 160
        → w.finds markup (readable_error_text w e) ≡ false
        → IsCaused (
            concat
              (w.upper_first (readable_error_text w e))
              (w.rest_with_stop (readable_error_text w e)))
    offline :
        e.status ≡ 0
        → is_said no_network ≡ true
        → IsCaused "Can't reach Silo. Check your network connection and try again."
    unexplained :
        contains (401 ∷ 403 ∷ 404 ∷ 408 ∷ 429 ∷ 502 ∷ 503 ∷ 504 ∷ []) e.status ≡ false
        → e.timeout ≡ false
        → is_said unauthorized ≡ false
        → is_said html ≡ false
        → is_said unreachable ≡ false
        → is_said forbidden ≡ false
        → is_said timed_out ≡ false
        → (e.status == 0 && is_said no_network) ≡ false
        → ((e.status == 400 || e.status == 422)
            && not (readable_error_text w e == "")
            && leb (w.size (readable_error_text w e)) 160
            && not (w.finds markup (readable_error_text w e)))
          ≡ false
        → IsCaused ""

  by_test :
      (b : Bool) (x y : String)
      → (b ≡ true → IsCaused x)
      → (b ≡ false → IsCaused y)
      → IsCaused (if b then x else y)
  by_test true x y h k = h refl
  by_test false x y h k = k refl

  status_is : (n : ℕ) → (e.status == n) ≡ true → e.status ≡ n
  status_is n h = (nat_eq.beq_iff e.status n).0 h

  by_rule :
      (b : Bool) (message other : String) (rest : Option String)
      → (b ≡ true → IsCaused message)
      → (b ≡ false → IsCaused (or_message rest other))
      → IsCaused (or_message (if b then some message else rest) other)
  by_rule true message other rest h k = h refl
  by_rule false message other rest h k = k refl

  either_status :
      (m n : ℕ) → (e.status == m || e.status == n) ≡ true → (e.status ≡ m) ⊎ (e.status ≡ n)
  either_status m n h = ground (arith, nat_eq.beq_iff e.status m, nat_eq.beq_iff e.status n)

  status_or_said :
      (m n : ℕ) (p : Pattern)
      → (e.status == m || e.status == n || is_said p) ≡ true
      → (e.status ≡ m) ⊎ ((e.status ≡ n) ⊎ (is_said p ≡ true))
  status_or_said m n p h = ground (arith, nat_eq.beq_iff e.status m, nat_eq.beq_iff e.status n)

  timeout-IsCaused :
      e.timeout ≡ true
      → IsCaused (
          if readable_error_text w e == ""
          then "The request took too long. Try again."
          else readable_error_text w e)
  timeout-IsCaused h =
      let text = readable_error_text w e in
      by_test (text == "") _ text (λ k. timeout_silent h ((string_eq.beq_iff text "").0 k))
        (λ k. timeout_text h (λ same. ground (arith, string_eq.beq_iff text "")))

  plain-IsCaused :
      is_plain w e.status (readable_error_text w e) ≡ true
      → IsCaused (
          concat
            (w.upper_first (readable_error_text w e))
            (w.rest_with_stop (readable_error_text w e)))
  plain-IsCaused h =
      let text = readable_error_text w e in
      form_refused (either_status 400 422 (ground arith))
        (λ same. ground (arith, string_eq.beq_iff text ""))
        (ground (arith, leb→le (w.size text) 160)) (ground arith)

  module _ (not_over : (e.status == 401) ≡ false) (in_time : e.timeout ≡ false)
      (not_unauthorized : is_said unauthorized ≡ false) (not_html : is_said html ≡ false)
      (not_away : (contains (502 ∷ 503 ∷ []) e.status || is_said unreachable) ≡ false) where
    general_error-IsCaused : IsCaused (general_error w e.status (readable_error_text w e))
    general_error-IsCaused =
        by_test (e.status == 403 || is_said forbidden) _ _
          (λ h. not_allowed (ground (arith, nat_eq.beq_iff e.status 403)))
          (λ no_403.
            by_test (e.status == 404) _ _ (λ h. missing (status_is 404 h))
              (λ no_404.
                by_test (e.status == 408 || e.status == 504 || is_said timed_out) _ _
                  (λ h. slow (status_or_said 408 504 timed_out h))
                  (λ no_408.
                    by_test (e.status == 429) _ _ (λ h. throttled (status_is 429 h))
                      (λ no_429.
                        by_test (is_plain w e.status (readable_error_text w e)) _ _ plain-IsCaused
                          (λ no_form.
                            by_test (e.status == 0 && is_said no_network) _ _
                              (λ h. offline (status_is 0 (ground arith)) (ground arith))
                              (λ online.
                                unexplained (ground arith) in_time not_unauthorized not_html
                                  (ground arith) (ground arith) (ground arith) online no_form))))))

  -- What a viewer reads of a failure has its cause. Each of the nine sentences stands only where
  -- its status, a timeout or its pattern in the text says so; the text itself stands only where a
  -- timeout made it, or, as a sentence, where the status is 400 or 422 and the text is not empty,
  -- has at most 160 characters and no markup; and nothing is said only where no status of a
  -- sentence, no timeout, no pattern and no such text is there.
  pub readable_error-IsCaused : IsCaused (readable_error w e)
  unfolding readable_error first_rule
  readable_error-IsCaused =
      by_test (e.status == 401) _ _ (λ h. session_over (status_is 401 h))
        (λ not_over. by_test e.timeout _ _ timeout-IsCaused (λ in_time.
          by_rule (is_said unauthorized) _ _ _ credentials_rejected (λ not_unauthorized.
            by_rule (is_said html) _ _ _ web_page_returned (λ not_html.
              by_rule (contains (502 ∷ 503 ∷ []) e.status || is_said unreachable) _ _ _
                (λ h. provider_away (ground (arith, status_or_said 502 503 unreachable)))
                (λ not_away.
                  general_error-IsCaused not_over in_time not_unauthorized not_html not_away)))))
