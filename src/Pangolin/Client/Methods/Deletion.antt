-- ===== src/Pangolin/Client/Methods/Deletion.antt =====
-- What an error of DeleteResource of internal/pangolin/client.go tells the reconcilers.
use pangolin_operator.Base.{none, ◌++◌, ◌≡◌, ◌↔◌, true, refl}
use pangolin_operator.Base.Errors.{Error, wrap, is_not_found, is_bad_request, is_conflict}
use pangolin_operator.Base.Exec.{Result, ok, err, wrap_result}
use pangolin_operator.Base.Int.{ℤ}
use pangolin_operator.Base.Text.{Text, txt, itoa}
use pangolin_operator.Pangolin.Client.{
  value, HttpResponse, Http, Client, api_base, request, do_request,
}
use pangolin_operator.Pangolin.Client.Methods.{Codec, delete_resource, ignored, with_id}
use pangolin_operator.Pangolin.Client.Status.{do_request_status}

wrapped :
    (prefix : Text) (r : Result (Unit {0})) (e : Error)
    → wrap_result prefix r ≡ err e
    → (f : Error) × (r ≡ err f) × (wrap prefix f ≡ e)
wrapped prefix (ok a) e h = cc
wrapped prefix (err f) e h = (f, refl, cc)

abbrev pub resource_url : Client → ℤ → Text
resource_url client id = api_base client ++ (txt "/resource/" ++ itoa id)

-- Where the DELETE of the resource's URL can be built and the server answers it, an error of
-- DeleteResource satisfies IsNotFound exactly where the status is 404, IsBadRequest exactly where
-- it is 400, and IsConflict exactly where it is 409.
pub delete_resource_status :
    (http : Http) (codec : Codec) (client : Client) (id : ℤ) (resp : HttpResponse) (e : Error)
    → http.refuse (txt "DELETE") (resource_url client id) ≡ none
    → http.send (request client (txt "DELETE") (resource_url client id) none) ≡ value resp
    → delete_resource http codec client id ≡ err e
    → ((is_not_found e ≡ true) ↔ (resp.status_code ≡ 404))
      × ((is_bad_request e ≡ true) ↔ (resp.status_code ≡ 400))
      × ((is_conflict e ≡ true) ↔ (resp.status_code ≡ 409))
unfolding delete_resource is_not_found is_bad_request is_conflict
delete_resource_status http codec client id resp e built answered h =
    let (f, bad, same) =
      wrapped (with_id (txt "DeleteResource") id)
        (do_request http client tt ignored (txt "DELETE") (resource_url client id) none).0 e h in
    rw (← same) (
      do_request_status http client tt ignored (txt "DELETE") (resource_url client id) resp f built
        answered bad)
