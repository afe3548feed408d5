-- ===== src/WebServer/Holds.antt =====
-- What the puzzle does to the visitors that it holds up.
use simple_twitter.Common.{
  ℕ, ◌≡◌, ◌≢◌, ◌⊎◌, inl, inr, refl, ◌∙◌, Bool-cases, true, false, List, [], ◌∷◌, All, Outcome, done,
  ◌>>=◌, Returns, Returns-bind, arith,
}
use simple_twitter.Common.Order.{Bytes}
use simple_twitter.StwServer.Dispatch.{Apps}
use simple_twitter.WebServer.State.{
  Method, get_method, post_method, delete_method, other_method, HttpRequest, puzzle, empty_page,
  Response, respond, status_ok, Filter, Latency, WebServer,
}
use simple_twitter.WebServer.Gate.{remote_ip, serve_puzzle, is_held, ddos_protection_wrapper}

-- A filter never forgets what goes in until it is taken out.
pub record IsFilter {F : Type 0} (filter : Filter F) : Type 0 where
  pub test_add : (ip : Bytes) (f : F) → filter.test ip (filter.add ip f) ≡ true

Method-cases :
    (m : Method) → (m ≡ get_method) ⊎ (m ≡ post_method) ⊎ (m ≡ delete_method) ⊎ (m ≡ other_method)
Method-cases get_method = inl refl
Method-cases post_method = inr (inl refl)
Method-cases delete_method = inr (inr (inl refl))
Method-cases other_method = inr (inr (inr refl))

-- A request from the address, with no passcode, that is not a POST.
abbrev pub IsSilent : Bytes → ℕ × HttpRequest → Type 0
IsSilent ip (delta, r) =
    (remote_ip r ≡ done ip) × (r.has_passcode ≡ false) × (r.method ≢ post_method)

abbrev pub IsHeldUp : Response → Type 0
IsHeldUp response =
    (response ≡ respond status_ok puzzle) ⊎ (response ≡ respond status_ok empty_page)

module _ {F L W : Type 0} (filter : Filter F) (latency : Latency L) (apps : Apps W) where
  -- The requests of a visitor, each with the time that serving it would take.
  unfoldable pub visit :
      List (ℕ × HttpRequest) → WebServer F L → W → Outcome (List Response × WebServer F L × W)
  visit [] ws w = done ([], ws, w)
  visit ((delta, r) ∷ rest) ws w =
      ddos_protection_wrapper filter latency apps delta r ws w >>= λ (response, ws', w').
      visit rest ws' w' >>= λ (responses, ws'', w''). done (response ∷ responses, ws'', w'')

  -- Held up, with no call of an application server, and as much a suspect as before.
  abbrev pub IsBlocked : Bytes → WebServer F L → W → Response × WebServer F L × W → Type 0
  IsBlocked ip ws w (response, ws', w') =
      IsHeldUp response
      × (w' ≡ w)
      × (filter.test ip ws'.zombie_filter ≡ true)
      × (ws' ≡ record ws { zombie_filter = ws'.zombie_filter })

  puzzle-IsBlocked :
      (ip : Bytes) (r : HttpRequest) (ws : WebServer F L) (w : W)
      → IsFilter filter
      → r.method ≢ post_method
      → filter.test ip ws.zombie_filter ≡ true
      → Returns (serve_puzzle filter latency apps ip r ws w) (IsBlocked ip ws w)
  unfolding serve_puzzle
  puzzle-IsBlocked ip r ws w law quiet known = elim (Method-cases r.method) [
    | inl e ↦ rw (e, serve_puzzle, Returns) (inl refl, refl, law.test_add ip ws.zombie_filter, refl)
    | inr (inl e) ↦ absurd (quiet e)
    | inr (inr (inl e)) ↦ rw (e, serve_puzzle, Returns) (inr refl, refl, known, refl)
    | inr (inr (inr e)) ↦ rw (e, serve_puzzle, Returns) (inr refl, refl, known, refl)
  ]

  wrapper-IsBlocked :
      (ip : Bytes) (delta : ℕ) (r : HttpRequest) (ws : WebServer F L) (w : W)
      → IsFilter filter
      → IsSilent ip (delta, r)
      → filter.test ip ws.zombie_filter ≡ true
      → Returns (ddos_protection_wrapper filter latency apps delta r ws w) (IsBlocked ip ws w)
  unfolding ddos_protection_wrapper
  wrapper-IsBlocked ip delta r ws w law q known =
      let held : is_held filter latency apps ip r ws ≡ true =
        ground (arith, q.1, known, Bool-cases ws.under_high_load) in
      rw q.0 (rw held (puzzle-IsBlocked ip r ws w law q.2 known))

  -- A visitor whose address is in the filter and who sends, one after the other, requests with no
  -- passcode that are not POSTs gets nothing but the puzzle and empty pages, whatever the load is:
  -- no application server is called, and the address stays in the filter.
  pub visit-blocked :
      (ip : Bytes) (requests : List (ℕ × HttpRequest)) (ws : WebServer F L) (w : W)
      → IsFilter filter
      → All (IsSilent ip) requests
      → filter.test ip ws.zombie_filter ≡ true
      → Returns (visit requests ws w) (λ (responses, ws', w').
        All IsHeldUp responses × (w' ≡ w) × (filter.test ip ws'.zombie_filter ≡ true))
  unfolding visit
  visit-blocked ip [] ws w law q known = (tt, refl, known)
  visit-blocked ip ((delta, r) ∷ rest) ws w law q known =
      Returns-bind (ddos_protection_wrapper filter latency apps delta r ws w) _ (IsBlocked ip ws w)
        _ (wrapper-IsBlocked ip delta r ws w law q.0 known)
        (λ (response, ws', w') b.
          Returns-bind (visit rest ws' w') _ _ _ (visit-blocked ip rest ws' w' law q.1 b.2)
            (λ out c. ((b.0, c.0), c.1 ∙ b.1, c.2)))
