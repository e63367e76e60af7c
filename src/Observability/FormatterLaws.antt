-- ===== src/Observability/FormatterLaws.antt =====
-- What a line of the log says.
use supply_chain_tracker.Prelude.{
  String, Bool, true, false, ◌||◌, ◌≡◌, refl, sym, ap, subst, ◌∙◌, Option, none, some, List, [],
  ◌∷◌, str_eq, if◌then◌else◌, inl, inr, Bool-cases, Option-cases,
}
use supply_chain_tracker.Messaging.Value.{Value, text}
use supply_chain_tracker.Cache.{Dict, lookup, assign}
use supply_chain_tracker.Cache.Laws.{lookup-assign, lookup-assign_any}
use package.text.Mathlib.TextEquality.{eq_iff}
use supply_chain_tracker.Observability.Formatter.{
  Context, LogRecord, has, is_hidden, add_attributes, own_fields, put_text, put_exception, format,
}

-- the first attribute under a key
abbrev pub first : String → List (String × Value) → Option Value
first key [] = none
first key ((k, v) ∷ attributes) = if str_eq k key then some v else first key attributes

-- The part of a context that is set and not empty.
abbrev pub set_text : Option String → Option Value
set_text none = none
set_text (some t) = if str_eq t "" then none else some (text t)

-- The fields that are no attributes of the record.
abbrev pub field_of : Context → String → LogRecord → String → Option Value
field_of c t r key =
    if str_eq "timestamp" key
    then some (text t)
    else if str_eq "level" key
    then some (text r.levelname)
    else if str_eq "message" key
    then some (text r.message)
    else if str_eq "logger" key
    then some (text r.name)
    else if str_eq "correlation_id" key
    then set_text c.correlation_id
    else if str_eq "service" key
    then set_text c.service_name
    else if str_eq "environment" key
    then set_text c.environment
    else none

-- The twenty attributes that the formatter leaves out.
abbrev pub is_left_out : String → Bool
is_left_out key =
    str_eq "name" key
    || (str_eq "msg" key
        || (str_eq "args" key
            || (str_eq "levelname" key
                || (str_eq "levelno" key
                    || (str_eq "pathname" key
                        || (str_eq "filename" key
                            || (str_eq "module" key
                                || (str_eq "exc_info" key
                                    || (str_eq "exc_text" key
                                        || (str_eq "stack_info" key
                                            || (str_eq "lineno" key
                                                || (str_eq "funcName" key
                                                    || (str_eq "created" key
                                                        || (str_eq "msecs" key
                                                            || (str_eq "relativeCreated" key
                                                            || (str_eq "thread" key
                                                            || (str_eq "threadName" key
                                                            || (str_eq "processName" key
                                                            || (str_eq "process" key
                                                            || false)))))))))))))))))))

-- A field on top of what is below.
abbrev over : Option Value → Option Value → Option Value
over (some v) below = some v
over none below = below

abbrev layer : String → Option String → String → Option Value → Option Value
layer name o key below = if str_eq name key then over (set_text o) below else below

lookup-put_text :
    (key name : String) (o : Option String) (payload : Dict Value)
    → lookup key (put_text name o payload) ≡ layer name o key (lookup key payload)
lookup-put_text key name none payload = elim (Bool-cases (str_eq name key)) [
  | inl e ↦ rw e refl
  | inr e ↦ rw e refl
]
lookup-put_text key name (some t) payload = elim (Bool-cases (str_eq t "")) [
  | inl e ↦ rw e (elim (Bool-cases (str_eq name key)) [ inl f ↦ rw f refl | inr f ↦ rw f refl ])
  | inr e ↦ rw e (lookup-assign_any key name (text t) payload)
]

same_value : (o : Option Value) → over o none ≡ o
same_value none = refl
same_value (some v) = refl

abbrev record_fields : String → LogRecord → Dict Value
record_fields t r =
    ("timestamp", text t)
    ∷ ("level", text r.levelname)
    ∷ ("message", text r.message)
    ∷ ("logger", text r.name)
    ∷ []

-- the fields, one part of the context on top of another
abbrev layered : Context → String → LogRecord → String → Option Value
layered c t r key = layer "environment" c.environment key (
    layer "service" c.service_name key
      (layer "correlation_id" c.correlation_id key (lookup key (record_fields t r))))

own_fields-layered :
    (c : Context) (t : String) (r : LogRecord) (key : String)
    → lookup key (own_fields c t r) ≡ layered c t r key
unfolding own_fields
own_fields-layered c t r key =
    let d₁ = put_text "correlation_id" c.correlation_id (record_fields t r) in
    let d₂ = put_text "service" c.service_name d₁ in
    lookup-put_text key "environment" c.environment d₂
    ∙ ap (layer "environment" c.environment key) (
        lookup-put_text key "service" c.service_name d₁
        ∙ ap (layer "service" c.service_name key)
            (lookup-put_text key "correlation_id" c.correlation_id (record_fields t r)))

layered-field_of :
    (c : Context) (t : String) (r : LogRecord) (key : String)
    → layered c t r key ≡ field_of c t r key
layered-field_of c t r key = elim (Bool-cases (str_eq "timestamp" key)) [
  | inl e0 ↦ subst (λ k. layered c t r k ≡ field_of c t r k) ((eq_iff "timestamp" key).0 e0) (refl)
  | inr e0 ↦ elim (Bool-cases (str_eq "level" key)) [
    | inl e1 ↦ subst (λ k. layered c t r k ≡ field_of c t r k) ((eq_iff "level" key).0 e1) (refl)
    | inr e1 ↦ elim (Bool-cases (str_eq "message" key)) [
      | inl e2 ↦
          subst (λ k. layered c t r k ≡ field_of c t r k) ((eq_iff "message" key).0 e2) (refl)
      | inr e2 ↦ elim (Bool-cases (str_eq "logger" key)) [
        | inl e3 ↦
            subst (λ k. layered c t r k ≡ field_of c t r k) ((eq_iff "logger" key).0 e3) (refl)
        | inr e3 ↦ elim (Bool-cases (str_eq "correlation_id" key)) [
          | inl e4 ↦
              subst (λ k. layered c t r k ≡ field_of c t r k) ((eq_iff "correlation_id" key).0 e4)
                (same_value (set_text c.correlation_id))
          | inr e4 ↦ elim (Bool-cases (str_eq "service" key)) [
            | inl e5 ↦
                subst (λ k. layered c t r k ≡ field_of c t r k) ((eq_iff "service" key).0 e5)
                  (same_value (set_text c.service_name))
            | inr e5 ↦ elim (Bool-cases (str_eq "environment" key)) [
              | inl e6 ↦
                  subst (λ k. layered c t r k ≡ field_of c t r k) ((eq_iff "environment" key).0 e6)
                    (same_value (set_text c.environment))
              | inr e6 ↦ rw (e0, e1, e2, e3, e4, e5, e6) refl
            ]
          ]
        ]
      ]
    ]
  ]
]

own_fields-field_of :
    (c : Context) (t : String) (r : LogRecord) (key : String)
    → lookup key (own_fields c t r) ≡ field_of c t r key
own_fields-field_of c t r key = own_fields-layered c t r key ∙ layered-field_of c t r key

or_right : (a b : Bool) → (a || b) ≡ false → b ≡ false
or_right false b h = h
or_right true b h = absurd (cc h)

has_absent :
    (key : String) (payload : Dict Value) → lookup key payload ≡ none → has key payload ≡ false
unfolding has
has_absent key payload e = rw (e, has) refl

has_held :
    (key : String) (v : Value) (payload : Dict Value)
    → lookup key payload ≡ some v
    → has key payload ≡ true
unfolding has
has_held key v payload e = rw (e, has) refl

exception_aside :
    (formatted : Option String) (key : String) (payload : Dict Value)
    → str_eq "exc_info" key ≡ false
    → lookup key (put_exception formatted payload) ≡ lookup key payload
exception_aside none key payload other = refl
exception_aside (some t) key payload other =
    lookup-assign_any key "exc_info" (text t) payload ∙ rw other refl

module _ (starts_with_underscore : String → Bool) where
  add_attributes-held :
      (key : String) (v : Value) (attributes : List (String × Value)) (payload : Dict Value)
      → lookup key payload ≡ some v
      → lookup key (add_attributes starts_with_underscore attributes payload) ≡ some v
  unfolding add_attributes
  add_attributes-held key v [] payload held = held
  add_attributes-held key v ((k, w) ∷ attributes) payload held =
      elim (Bool-cases (is_hidden starts_with_underscore k || has k payload)) [
        | inl e ↦ rw e (add_attributes-held key v attributes payload held)
        | inr e ↦ rw e (
            add_attributes-held key v attributes (assign k w payload) (
              lookup-assign_any key k w payload ∙ elim (Bool-cases (str_eq k key)) [
                | inl same ↦
                    let there : has k payload ≡ true =
                      rw ((eq_iff k key).0 same) (has_held key v payload held) in
                    let gone = or_right (is_hidden starts_with_underscore k) (has k payload) e in
                    absurd (cc (there, gone))
                | inr other ↦ rw other held
              ]))
      ]

  -- an attribute under a key that is not there yet
  shown :
      (key : String) (w : Value) (attributes : List (String × Value)) (payload : Dict Value)
      → lookup key payload ≡ none
      → lookup key (
          add_attributes starts_with_underscore attributes
            (if has key payload then payload else assign key w payload))
        ≡ some w
  shown key w attributes payload absent =
      rw (has_absent key payload absent)
        (add_attributes-held key w attributes (assign key w payload) (lookup-assign key w payload))

  add_attributes-absent :
      (key : String) (attributes : List (String × Value)) (payload : Dict Value)
      → lookup key payload ≡ none
      → lookup key (add_attributes starts_with_underscore attributes payload)
        ≡ (if is_hidden starts_with_underscore key then none else first key attributes)
  unfolding add_attributes
  add_attributes-absent key [] payload absent =
      elim (Bool-cases (is_hidden starts_with_underscore key)) [
        | inl e ↦ rw e absent
        | inr e ↦ rw e absent
      ]
  add_attributes-absent key ((k, w) ∷ attributes) payload absent =
      elim (Bool-cases (str_eq k key)) [
        | inr other ↦
            rw other (elim (Bool-cases (is_hidden starts_with_underscore k || has k payload)) [
              | inl e ↦ rw e (add_attributes-absent key attributes payload absent)
              | inr e ↦ rw e (
                  add_attributes-absent key attributes (assign k w payload)
                    (lookup-assign_any key k w payload ∙ rw other absent))
            ])
        | inl same ↦ rw same (
            rw ((eq_iff k key).0 same) (elim (Bool-cases (is_hidden starts_with_underscore key)) [
              | inl e ↦
                  rw e (let ih = add_attributes-absent key attributes payload absent in rw e at ih)
              | inr e ↦ rw e (shown key w attributes payload absent)
            ]))
      ]

  -- what the attributes of a record add under a key
  abbrev pub extra : String → LogRecord → Option Value
  extra key r =
      if starts_with_underscore key
      then none
      else if is_left_out key
      then none
      else first key r.attributes

  extra-is_hidden :
      (key : String) (r : LogRecord)
      → (if is_hidden starts_with_underscore key then none else first key r.attributes)
        ≡ extra key r
  unfolding is_hidden
  extra-is_hidden key r = elim (Bool-cases (starts_with_underscore key)) [
    | inl e ↦ rw e refl
    | inr e ↦ rw e refl
  ]

  -- A line of the log, under any key but exc_info. Under timestamp, level, message and logger it has
  -- the time, and the level, the message and the logger of the record; under correlation_id, service
  -- and environment it has the part of the context that is set and not empty: whatever a record
  -- carries under these keys. Under any other key, and under one of the last three whose part is not
  -- set, it has the first attribute that the record carries under it, unless the key starts with an
  -- underscore or is one of the twenty that the formatter leaves out.
  pub format_lem :
      (c : Context) (t : String) (r : LogRecord) (key : String)
      → str_eq "exc_info" key ≡ false
      → lookup key (format starts_with_underscore c t r)
        ≡ elim (field_of c t r key) [ some v ↦ some v | none ↦ extra key r ]
  unfolding format
  format_lem c t r key other =
      exception_aside r.formatted key
        (add_attributes starts_with_underscore r.attributes (own_fields c t r)) other
      ∙ elim (Option-cases (lookup key (own_fields c t r))) [
        | inl e ↦
            rw (sym (own_fields-field_of c t r key) ∙ e)
              (add_attributes-absent key r.attributes (own_fields c t r) e ∙ extra-is_hidden key r)
        | inr (v, e) ↦
            rw (sym (own_fields-field_of c t r key) ∙ e)
              (add_attributes-held key v r.attributes (own_fields c t r) e)
      ]
