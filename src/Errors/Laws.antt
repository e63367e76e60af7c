-- ===== src/Errors/Laws.antt =====
-- Which exceptions the registered handlers answer, and with which status.
use supply_chain_tracker.Prelude.{
  String, Bool, false, ◌||◌, ◌≡◌, refl, Option, none, some, List, [], ◌∷◌, str_eq, if◌then◌else◌,
  arith, ◌&&◌, ◌∙◌, sym, Bool-cases, inl, inr,
}
use text.Mathlib.TextEquality.{eq_iff}
use supply_chain_tracker.Errors.{
  Framework, Registers, Handler, handle_not_found, handle_conflict, register_all, or_empty,
  register_domain_exception_handlers, warehouse_handlers, delivery_handlers, shipment_handlers,
}

abbrev pub is_named : String → List String → Bool
is_named name [] = false
is_named name (exc_class ∷ classes) = str_eq exc_class name || is_named name classes

not-both : (name a b : String) → str_eq a b ≡ false → (str_eq a name && str_eq b name) ≡ false
not-both name a b apart = elim (Bool-cases (str_eq a name)) [
  | inr e ↦ rw e refl
  | inl e ↦ elim (Bool-cases (str_eq b name)) [
    | inr e' ↦ rw (e, e') refl
    | inl e' ↦
        let same = (eq_iff a b).1 ((eq_iff a name).0 e ∙ sym ((eq_iff b name).0 e')) in ground arith
  ]
]

module _ (f : Framework) (registers : Registers f) where
  handler_of-register_all :
      (name : String) (handle : Handler) (classes : List String) (app : f.App)
      → f.handler_of name (register_all f handle classes app)
        ≡ (if is_named name classes then some handle else f.handler_of name app)
  unfolding register_all
  handler_of-register_all name handle [] app = refl
  handler_of-register_all name handle (exc_class ∷ classes) app =
      rw (handler_of-register_all name handle classes (f.exception_handler exc_class handle app))
        (rw (registers exc_class name handle app) (ground arith))

  -- Where a registration is for its class alone: after register_domain_exception_handlers, a class
  -- among the conflicts is answered with 409, also where it is among the missing ones too; any other
  -- class among the missing ones with 404; and every class in neither list as before.
  handler_of-register_domain_exception_handlers :
      (name : String) (missing : List String) (conflicts : Option (List String)) (app : f.App)
      → f.handler_of name (register_domain_exception_handlers f missing conflicts app) ≡ (
          if is_named name (or_empty f conflicts)
          then some handle_conflict
          else if is_named name missing
          then some handle_not_found
          else f.handler_of name app)
  unfolding register_domain_exception_handlers
  handler_of-register_domain_exception_handlers name missing conflicts app =
      rw
        (handler_of-register_all name handle_conflict (or_empty f conflicts)
          (register_all f handle_not_found missing app))
        (rw (handler_of-register_all name handle_not_found missing app) refl)

  -- the conflict registered between the two missing things, or after both
  in_either_order :
      (name first conflict second : String) (app : f.App)
      → str_eq conflict second ≡ false
      → f.handler_of name (
          f.exception_handler second handle_not_found (
            f.exception_handler conflict handle_conflict
              (f.exception_handler first handle_not_found app)))
        ≡ f.handler_of name
            (register_domain_exception_handlers f (first ∷ second ∷ []) (some (conflict ∷ [])) app)
  in_either_order name first conflict second app apart =
      let both = not-both name conflict second apart in
      rw
        (handler_of-register_domain_exception_handlers name (first ∷ second ∷ [])
          (some (conflict ∷ [])) app)
        (rw
          (registers second name handle_not_found (
            f.exception_handler conflict handle_conflict
              (f.exception_handler first handle_not_found app)))
          (rw
            (registers conflict name handle_conflict
              (f.exception_handler first handle_not_found app))
            (rw (registers first name handle_not_found app) (ground arith))))

  -- Where a registration is for its class alone: for every class of exceptions, the handlers that
  -- the warehouse, delivery and shipment services write out in create_app are those that
  -- register_domain_exception_handlers registers for their errors of missing things and of
  -- conflicts.
  pub create_app-register_domain_exception_handlers :
      (name : String) (app : f.App)
      → (f.handler_of name (warehouse_handlers f app)
          ≡ f.handler_of name (
              register_domain_exception_handlers f
                ("WarehouseNotFoundError" ∷ "InventoryRecordNotFoundError" ∷ [])
                (some ("WarehouseAlreadyExistsError" ∷ []))
                app))
        × (f.handler_of name (delivery_handlers f app)
            ≡ f.handler_of name (
                register_domain_exception_handlers f
                  ("CourierNotFoundError" ∷ "DeliveryNotFoundError" ∷ [])
                  (some ("CourierAlreadyExistsError" ∷ []))
                  app))
        × (f.handler_of name (shipment_handlers f app)
            ≡ f.handler_of name
                (register_domain_exception_handlers f ("ShipmentNotFoundError" ∷ []) none app))
  unfolding warehouse_handlers delivery_handlers shipment_handlers
  create_app-register_domain_exception_handlers name app = (
    in_either_order name "WarehouseNotFoundError" "WarehouseAlreadyExistsError"
        "InventoryRecordNotFoundError" app refl,
    in_either_order name "CourierNotFoundError" "CourierAlreadyExistsError" "DeliveryNotFoundError"
        app refl,
    rw (handler_of-register_domain_exception_handlers name ("ShipmentNotFoundError" ∷ []) none app)
        (rw (registers "ShipmentNotFoundError" name handle_not_found app) (ground arith)),
  )
