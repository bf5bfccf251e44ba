-- ===== src/Stress/RateLimit.antt =====
-- How many requests the mock API lets through.
use ciwarden.Base.{
  ℕ, suc, ◌+◌, ◌-◌, ◌*◌, ◌≤◌, ◌<◌, ◌≡◌, Bool, true, false, List, [], ◌∷◌, if◌then◌else◌, eqb, leb,
  arith, All, length, if_ind,
}
use ciwarden.Stress.{RateLimitState, Response, smaller, respond, process_request}

-- The requests of a list of times, one after the other: how many got a 200, and the last state.
abbrev pub serve : List ℕ → RateLimitState → ℕ × RateLimitState
serve [] s = (0, s)
serve (now ∷ times) s =
    let (response, s') = process_request now now s in
    let (served, last) = serve times s' in
    ((if eqb response.status_code 200 then suc served else served), last)

abbrev served : List ℕ → Response × RateLimitState → ℕ
served times x = if eqb x.0.status_code 200 then suc (serve times x.1).0 else (serve times x.1).0

-- Before the window ends, as many requests get a 200 as remain, and the others do not.
pub serve-window :
    (times : List ℕ) (s : RateLimitState)
    → All (λ now. now < s.reset_at) times
    → (serve times s).0 ≡ smaller s.remaining (length times)
unfolding process_request
serve-window [] s h = ground arith
serve-window (now ∷ times) s h =
    if_ind (λ t. served times (respond now t) ≡ smaller s.remaining (suc (length times)))
      (leb s.reset_at now) (λ e. absurd (ground (arith, e, h.0)))
      (λ e.
        if_ind (λ x. served times x ≡ smaller s.remaining (suc (length times))) (eqb s.remaining 0)
          (λ none_left. ground (arith, serve-window times s h.1, none_left))
          (λ some_left.
            let ih = serve-window times (record s { remaining = s.remaining - 1 }) h.1 in
            ground (arith, ih, some_left)))

-- How many windows begin in a list of times.
abbrev pub windows : List ℕ → RateLimitState → ℕ
windows [] s = 0
windows (now ∷ times) s =
    let rest = windows times (process_request now now s).1 in
    if leb s.reset_at now then suc rest else rest

respond-bound :
    (now : ℕ) (times : List ℕ) (t : RateLimitState)
    → ((s : RateLimitState) → (serve times s).0 ≤ s.remaining + windows times s * s.limit)
    → served times (respond now t) ≤ t.remaining + windows times (respond now t).1 * t.limit
respond-bound now times t ih =
    if_ind
      (λ (x : Response × RateLimitState).
        served times x ≤ t.remaining + windows times x.1 * t.limit)
      (eqb t.remaining 0) (λ none_left. ih t)
      (λ some_left.
        let rest = ih (record t { remaining = t.remaining - 1 }) in ground (arith, rest, some_left))

-- Of any requests, at most those that remain and a full limit for each window that begins get a 200.
pub serve-bound :
    (times : List ℕ) (s : RateLimitState)
    → (serve times s).0 ≤ s.remaining + windows times s * s.limit
unfolding process_request
serve-bound [] s = omega arith
serve-bound (now ∷ times) s =
    let ih = serve-bound times in
    go (leb s.reset_at now) (respond-bound now times s ih) (respond-bound now times fresh ih)
  where
    fresh : RateLimitState
    fresh = record s { remaining = s.limit; reset_at = now + s.window }

    go :
        (b : Bool)
        → served times (respond now s) ≤ s.remaining + windows times (respond now s).1 * s.limit
        → served times (respond now fresh) ≤ s.limit + windows times (respond now fresh).1 * s.limit
        → served times (respond now (if b then fresh else s))
          ≤ s.remaining
            + (if b
                then suc (windows times (respond now (if b then fresh else s)).1)
                else windows times (respond now (if b then fresh else s)).1)
              * s.limit
    go true old new = omega (arith, new)
    go false old new = old
