-- ===== src/App/Http.antt =====
-- The middleware and the exception handlers of app/main.py, and the headers of app/core/security.py. The
-- names of headers are in lower case, as they are compared. What is logged is left out.
use noxis_api_provider.Prelude.{ℕ, String, Option, none, some, [], str_eq, if◌then◌else◌}
use noxis_api_provider.Dict
use noxis_api_provider.Dict.{Dict}
use noxis_api_provider.Json.{Json, null, str, obj, end, field}
use noxis_api_provider.Errors.{NoxisError}

pub record Response : Type 0 where
  pub status_code : ℕ
  pub headers : Dict String
  pub content : Json

-- `exc.detail`
unfoldable pub detail : NoxisError → Json
detail e = obj (
    field "error"
      (obj (
        field "message" (str e.message) (
          field "type" (str e.type_) (
            field "code" (str e.code)
              (field "param" (elim (e.param) [ none ↦ null | some p ↦ str p ]) end)))))
      end)

unfoldable pub noxis_error_handler : NoxisError → Response
unfolding detail
noxis_error_handler e = record { status_code = e.status_code; headers = []; content = detail e }

unfoldable pub internal_answer : Response
internal_answer = record {
  status_code = 500;
  headers = [];
  content = obj (
      field "error"
        (obj (
          field "message" (str "An internal error occurred.")
            (field "type" (str "internal_error") (field "code" (str "NOXIS_INTERNAL_ERROR") end))))
        end);
}

-- Whatever the exception is.
unfoldable pub generic_error_handler : (exc : String) → Response
unfolding internal_answer
generic_error_handler exc = internal_answer

-- headers.setdefault(k, v)
unfoldable pub set_default : String → String → Dict String → Dict String
set_default k v headers = if Dict.contains k headers then headers else Dict.set k v headers

unfoldable pub secured : Response → Response
unfolding set_default
secured r = record r {
  headers = set_default "cache-control" "no-store" (
      Dict.set "referrer-policy" "no-referrer" (
        Dict.set "x-frame-options" "DENY" (Dict.set "x-content-type-options" "nosniff" r.headers)));
}

-- SecurityHeadersMiddleware.dispatch; `none` is an exception, which passes through.
unfoldable pub dispatch : Option Response → Option Response
unfolding secured
dispatch none = none
dispatch (some r) = some (secured r)

-- request.headers.get("x-request-id") or gen_request_id()
unfoldable pub request_id_of : Option String → String → String
request_id_of none new_id = new_id
request_id_of (some id) new_id = if str_eq id "" then new_id else id

unfoldable pub request_id_middleware : Option String → String → Option Response → Option Response
unfolding request_id_of
request_id_middleware given new_id none = none
request_id_middleware given new_id (some r) =
    some (record r { headers = Dict.set "x-request-id" (request_id_of given new_id) r.headers })

-- How the handling of a request ends, inside the middleware: a response, a NoxisError, or any other
-- exception.
pub data Ended : Type 0 where
  answered : Response → Ended
  raised : NoxisError → Ended
  crashed : (exc : String) → Ended

-- The handler of NoxisError is inside the middleware.
unfoldable pub handled : Ended → Option Response
unfolding noxis_error_handler
handled (answered r) = some r
handled (raised e) = some (noxis_error_handler e)
handled (crashed exc) = none

unfoldable pub exception_of : Ended → String
exception_of (crashed exc) = exc
exception_of _ = ""

-- What the client gets where an exception leaves the middleware, and where none does.
unfoldable pub shown : String → Option Response → Response
unfolding generic_error_handler
shown exc none = generic_error_handler exc
shown exc (some r) = r

-- What is sent to the client: the middleware that is added last is the outermost, and Starlette calls the
-- handler of Exception outside of it. CORS adds headers of its own to requests from a browser.
unfoldable pub serve : Option String → String → Ended → Response
unfolding handled exception_of shown
serve given new_id e =
    shown (exception_of e) (request_id_middleware given new_id (dispatch (handled e)))
