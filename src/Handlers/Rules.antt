-- ===== src/Handlers/Rules.antt =====
-- Postconditions of the parts that the handlers share.
use vpn_backend.Base.{◌≡◌, refl, String}
use vpn_backend.Errors.{Error}
use vpn_backend.Action.{Result, ok, err, Action}
use vpn_backend.Models.{Uuid}
use vpn_backend.Handlers.{
  Parsers, Request, Response, failure, service_error, on_success, with_id, with_body,
}

module _ {W : Type 0} (Q : Response × W → Type 0) where
  pub on_success_rule :
      {A : Type 0} (m : Action W A) (k : A → W → Response × W) (w : W)
      → ((a : A) → (m w).0 ≡ ok a → Q (k a (m w).1))
      → ((e : Error) → (m w).0 ≡ err e → Q (service_error e, (m w).1))
      → Q (on_success m k w)
  unfolding on_success
  on_success_rule {A} m k w good bad = go (m w).0 refl
    where
      go :
          (r : Result A)
          → (m w).0 ≡ r
          → Q (elim r as (λ _. Response × W) [
            | ok a ↦ k a (m w).1
            | err e ↦ (service_error e, (m w).1)
          ])
      go (ok a) h = good a h
      go (err e) h = bad e h

  pub with_id_rule :
      (parsers : Parsers) (req : Request) (k : Uuid → W → Response × W) (w : W)
      → ((id : Uuid) → parsers.parse_uuid (req.param "id") ≡ ok id → Q (k id w))
      → Q (failure 400 "INVALID_ID" "Invalid identifier.", w)
      → Q (with_id parsers req k w)
  unfolding with_id
  with_id_rule parsers req k w good bad = go (parsers.parse_uuid (req.param "id")) refl
    where
      go :
          (r : Result Uuid)
          → parsers.parse_uuid (req.param "id") ≡ r
          → Q (
              (elim r as (λ _. Response × W) [
                | ok id ↦ k id w
                | err e ↦ (failure 400 "INVALID_ID" "Invalid identifier.", w)
              ]))
      go (ok id) h = good id h
      go (err e) h = bad

  pub with_body_rule :
      (parsers : Parsers) {B : Type 0} (bind : String → Result B) (message : String) (req : Request)
      (k : B → W → Response × W) (w : W)
      → ((b : B) → bind req.body ≡ ok b → Q (k b w))
      → Q (failure 422 "VALIDATION_ERROR" message, w)
      → Q (with_body parsers bind message req k w)
  unfolding with_body
  with_body_rule parsers {B} bind message req k w good bad = go (bind req.body) refl
    where
      go :
          (r : Result B)
          → bind req.body ≡ r
          → Q (
              (elim r as (λ _. Response × W) [
                | ok b ↦ k b w
                | err e ↦ (failure 422 "VALIDATION_ERROR" message, w)
              ]))
      go (ok b) h = good b h
      go (err e) h = bad
