-- ===== src/Pangolin/Client/Status.antt =====
-- Which errors the method `do` of internal/pangolin/client.go returns for which responses.
use pangolin_operator.Base.{none, ◌≡◌, ◌↔◌, ◌⊎◌, inl, inr, true, arith, refl}
use pangolin_operator.Base.Errors.{Error, is_not_found, is_bad_request, is_conflict}
use pangolin_operator.Base.Exec.{ok, err}
use pangolin_operator.Base.Text.{Text, is_empty}
use pangolin_operator.Pangolin.Client.{
  Answer, value, failure, HttpResponse, Envelope, Http, Client, request, do_request,
}

Answer-cases :
    {A : Type 0} (x : Answer A) → ((a : A) × (x ≡ value a)) ⊎ ((m : Text) × (x ≡ failure m))
Answer-cases (value a) = inl (a, refl)
Answer-cases (failure m) = inr (m, refl)

module _ {A : Type 0} (http : Http) (client : Client) (zero_value : A)
    (decode : Text → Answer A) where
  -- Where a request without a body can be built and the server answers it, an error that `do`
  -- returns satisfies IsNotFound exactly where the status is 404, IsBadRequest exactly where it is
  -- 400, and IsConflict exactly where it is 409.
  pub do_request_status :
      (method url : Text) (resp : HttpResponse) (e : Error)
      → http.refuse method url ≡ none
      → http.send (request client method url none) ≡ value resp
      → (do_request http client zero_value decode method url none).0 ≡ err e
      → ((is_not_found e ≡ true) ↔ (resp.status_code ≡ 404))
        × ((is_bad_request e ≡ true) ↔ (resp.status_code ≡ 400))
        × ((is_conflict e ≡ true) ↔ (resp.status_code ≡ 409))
  unfolding do_request is_not_found is_bad_request is_conflict
  do_request_status method url resp e built answered h = (ground arith, ground arith, ground arith)

  -- What a successful call rests on: a response with an envelope that reports success, and its data
  -- decoded, or nothing to decode.
  pub record Succeeded (method url : Text) (a : A) : Type 0 where
    pub resp : HttpResponse
    pub envelope : Envelope
    pub answered : http.send (request client method url none) ≡ value resp
    pub enveloped : http.decode_envelope resp.body ≡ value envelope
    pub success : envelope.success ≡ true
    pub result :
        ((is_empty envelope.payload ≡ true) × (a ≡ zero_value))
        ⊎ (decode envelope.payload ≡ value a)

  payload_lem :
      (method url : Text) (a : A) (resp : HttpResponse) (envelope : Envelope)
      → http.send (request client method url none) ≡ value resp
      → http.decode_envelope resp.body ≡ value envelope
      → (do_request http client zero_value decode method url none).0 ≡ ok a
      → (envelope.success ≡ true)
        × (((is_empty envelope.payload ≡ true) × (a ≡ zero_value))
            ⊎ (decode envelope.payload ≡ value a))
  unfolding do_request
  payload_lem method url a resp envelope answered enveloped h = (
    ground arith,
    elim (Answer-cases (decode envelope.payload)) [
      | inl (b, decoded) ↦ ground arith
      | inr (m, failed) ↦ ground arith
    ],
  )

  -- A request without a body succeeds only on a response whose envelope reports success; the result
  -- is the decoded data of the envelope, or the zero value where it has none.
  pub do_request-Succeeded :
      (method url : Text) (a : A)
      → (do_request http client zero_value decode method url none).0 ≡ ok a
      → Succeeded method url a
  unfolding do_request
  do_request-Succeeded method url a h =
      elim (Answer-cases (http.send (request client method url none))) [
        | inl (resp, answered) ↦ elim (Answer-cases (http.decode_envelope resp.body)) [
          | inl (envelope, enveloped) ↦
              let (good, result) = payload_lem method url a resp envelope answered enveloped h in
              record {
                resp = resp;
                envelope = envelope;
                answered = answered;
                enveloped = enveloped;
                success = good;
                result = result;
              }
          | inr (m, broken) ↦ absurd (ground arith)
        ]
        | inr (m, failed) ↦ absurd (ground arith)
      ]
