-- ===== src/Errors.antt =====
-- libs/libs/errors/handlers.py, and the exception handlers that `create_app` registers in
-- services/warehouse_service/src/main.py, services/delivery_service/src/main.py and
-- services/shipment_service/src/main.py. A class of exceptions stands by its name.
use supply_chain_tracker.Prelude.{
  ℕ, String, Bool, false, ◌||◌, ◌≡◌, Option, none, some, List, [], ◌∷◌, str_eq, if◌then◌else◌,
}
pub mod Laws

-- `JSONResponse(status_code, content={"detail": detail})`
pub record JsonResponse : Type 0 where
  pub status_code : ℕ
  pub detail : String

-- A handler gets the text of the exception.
abbrev pub Handler : Type 0
Handler = String → JsonResponse

abbrev pub handle_not_found : Handler
handle_not_found text = record { status_code = 404; detail = text }

abbrev pub handle_conflict : Handler
handle_conflict text = record { status_code = 409; detail = text }

-- An application of FastAPI: `app.exception_handler`, and the handler that is registered for a
-- class itself, which goes before one for a base of it. A registration is for its class, in place
-- of an earlier one, and leaves the other classes as they are.
pub record Framework : Type 1 where
  pub App : Type 0
  pub exception_handler : String → Handler → App → App
  pub handler_of : String → App → Option Handler

abbrev pub Registers : Framework → Type 0
Registers f =
    (exc_class other : String) (handle : Handler) (app : f.App)
    → f.handler_of other (f.exception_handler exc_class handle app)
      ≡ (if str_eq exc_class other then some handle else f.handler_of other app)

module _ (f : Framework) where
  -- a loop of `register_domain_exception_handlers`
  unfoldable pub register_all : Handler → List String → f.App → f.App
  register_all handle [] app = app
  register_all handle (exc_class ∷ classes) app =
      register_all handle classes (f.exception_handler exc_class handle app)

  -- `conflict_errors or []`
  abbrev pub or_empty : Option (List String) → List String
  or_empty none = []
  or_empty (some classes) = classes

  unfoldable pub register_domain_exception_handlers :
      List String → Option (List String) → f.App → f.App
  register_domain_exception_handlers not_found_errors conflict_errors app =
      register_all handle_conflict (or_empty conflict_errors)
        (register_all handle_not_found not_found_errors app)

  unfoldable pub warehouse_handlers : f.App → f.App
  warehouse_handlers app =
      let app₁ = f.exception_handler "WarehouseNotFoundError" handle_not_found app in
      let app₂ = f.exception_handler "WarehouseAlreadyExistsError" handle_conflict app₁ in
      f.exception_handler "InventoryRecordNotFoundError" handle_not_found app₂

  unfoldable pub delivery_handlers : f.App → f.App
  delivery_handlers app =
      let app₁ = f.exception_handler "CourierNotFoundError" handle_not_found app in
      let app₂ = f.exception_handler "CourierAlreadyExistsError" handle_conflict app₁ in
      f.exception_handler "DeliveryNotFoundError" handle_not_found app₂

  unfoldable pub shipment_handlers : f.App → f.App
  shipment_handlers app = f.exception_handler "ShipmentNotFoundError" handle_not_found app
