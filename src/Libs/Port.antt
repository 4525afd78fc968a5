-- ===== src/Libs/Port.antt =====
-- internal/libs/port.go: GetFreePort. What the network answers is an argument.
mod Tests
use terraform_provider_tunne.Base.{
  ◌≡◌, refl, ◌↔◌, ◌⊎◌, inl, inr, Bool, true, false, Option, none, some, List, [], ◌∷◌, ◌++◌, ℤ,
  arith,
}
use terraform_provider_tunne.Errors.{Error, message, not_tcp_addr, Result, ok, err, is_ok}
use terraform_provider_tunne.Effects.{Run, ◌>>=◌, ◌>>◌, acquire, ask, defer, result_of}

pub data PortEffect : Type 0 where
  listen close_listener : PortEffect

-- `tcp_port` is the port of `l.Addr()`, if that is a *net.TCPAddr.
pub record PortCalls : Type 0 where
  pub resolve : Option Error
  pub listen_error : Option Error
  pub tcp_port : Option ℤ

bound_port : Option ℤ → Result ℤ
bound_port none = err (message not_tcp_addr)
bound_port (some port) = ok port

pub get_free_port : PortCalls → Run PortEffect ℤ
unfolding bound_port
get_free_port c = do
  ask (result_of c.resolve)
  acquire listen (result_of c.listen_error)
  defer close_listener (ask (bound_port c.tcp_port))

-- GetFreePort either has bound nothing and reports an error, or has bound a port and released it
-- again before it returns; a port that it returns is the one that it had bound.
pub get_free_port-releases :
    (c : PortCalls)
    → let r = get_free_port c in
      ((r.0 ≡ []) × (is_ok r.1 ≡ false))
      ⊎ ((r.0 ≡ listen ∷ close_listener ∷ [])
          × ((port : ℤ) → (r.1 ≡ ok port) ↔ (c.tcp_port ≡ some port)))
unfolding get_free_port
get_free_port-releases c = by_calls c.resolve c.listen_error c.tcp_port
  where
    by_calls :
        (r l : Option Error) (p : Option ℤ)
        → let x = get_free_port (record { resolve = r; listen_error = l; tcp_port = p }) in
          ((x.0 ≡ []) × (is_ok x.1 ≡ false))
          ⊎ ((x.0 ≡ listen ∷ close_listener ∷ [])
              × ((port : ℤ) → (x.1 ≡ ok port) ↔ (p ≡ some port)))
    by_calls (some e) l p = inl (refl, refl)
    by_calls none (some e) p = inl (refl, refl)
    by_calls none none none = inr (refl, λ port. (λ h. cc, λ h. cc))
    by_calls none none (some n) = inr (refl, λ port. (λ h. cc, λ h. cc))
