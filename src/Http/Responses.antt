-- ===== src/Http/Responses.antt =====
-- The bodies of the answers (src/utils/response.ts) and the last handlers of src/middleware/error.middleware.ts.
use arcana_cloud_nodejs.Base.{ℕ, String, Bool, Option, none, some, List, [], ◌∷◌, if◌then◌else◌}
use arcana_cloud_nodejs.Errors.{Throwable, api, plain, Details}
use arcana_cloud_nodejs.Accounts.UserDao.{Pagination}

pub record SuccessResponse (T : Type 0) : Type 0 where
  pub data_value : T
  pub message : String
  pub timestamp : String
  pub request_id : String

pub record ErrorResponse : Type 0 where
  pub code : String
  pub message : String
  pub details : Option Details
  pub timestamp : String
  pub request_id : String

pub record PaginatedResponse (T : Type 0) : Type 0 where
  pub items : List T
  pub pagination : Pagination
  pub timestamp : String
  pub request_id : String

-- What the answers use beside the program: `new Date().toISOString()`, `uuidv4()`, NODE_ENV, the trace of
-- an error, and the error of a property read of undefined.
pub record Edge (W : Type 0) : Type 0 where
  pub stamp : W → String
  pub uuid : W → String × W
  pub is_development : Bool
  pub stack : Throwable → String
  pub undefined_read : Throwable

module _ {W : Type 0} (edge : Edge W) where
  -- `requestId ?? uuidv4()`
  abbrev request_id_or : Option String → W → String × W
  request_id_or none w = edge.uuid w
  request_id_or (some id) w = (id, w)

  unfoldable pub success_response :
      {T : Type 0} → T → String → Option String → W → SuccessResponse T × W
  success_response value message request_id w =
      let (id, w') = request_id_or request_id w in
      (
        record { data_value = value; message = message; timestamp = edge.stamp w; request_id = id },
        w',
      )

  unfoldable pub error_response :
      String → String → Option Details → Option String → W → ErrorResponse × W
  error_response message code details request_id w =
      let (id, w') = request_id_or request_id w in
      (
        record {
          code = code;
          message = message;
          details = details;
          timestamp = edge.stamp w;
          request_id = id;
        },
        w',
      )

  unfoldable pub paginated_response :
      {T : Type 0} → List T → Pagination → Option String → W → PaginatedResponse T × W
  paginated_response items pagination request_id w =
      let (id, w') = request_id_or request_id w in
      (
        record {
          items = items;
          pagination = pagination;
          timestamp = edge.stamp w;
          request_id = id;
        },
        w',
      )

  abbrev with_status : {T : Type 0} → ℕ → T × W → (ℕ × T) × W
  with_status status (body, w) = ((status, body), w)

  -- the status and the body that `errorHandler` sends
  unfoldable pub error_handler : Option String → Throwable → W → (ℕ × ErrorResponse) × W
  unfolding error_response
  error_handler request_id (api e) w =
      with_status e.status_code (error_response e.message e.error_code e.details request_id w)
  error_handler request_id (plain m) w = with_status 500 (
      error_response (if edge.is_development then m else "Internal server error") "INTERNAL_ERROR"
        (if edge.is_development then some (("stack", edge.stack (plain m)) ∷ []) else none)
        request_id w)

  unfoldable pub not_found_handler : Option String → W → (ℕ × ErrorResponse) × W
  unfolding error_response
  not_found_handler request_id w =
      with_status 404 (error_response "Resource not found" "NOT_FOUND" none request_id w)
