-- ===== src/Port/Create/Inputs.antt =====
-- The inputs that an accepted request for a port change has.
use autostream_contracts.Common.{
  ◌≡◌, inl, inr, true, Option, none, some, ℤ, pos, ◌≤ℤ◌, refl, pass, tests, eq_iff, if-cases,
  and_true, ◌&&◌, ◌==◌, String_eq, is_nil, none_of_nil, Bool-cases, arith, require-passes,
  system_update_port_contract,
}
use autostream_contracts.Port.Mode
use autostream_contracts.Port.Snapshot.{valid_port}
use autostream_contracts.Port.Create.{
  SystemUpdatePortCreateRequestV2, given_port, create_fields, local_inputs, advertised_inputs,
  validate_create,
}

-- A port that is given, between two bounds.
pub IsGiven : Option ℤ → ℤ → Type 0
IsGiven o lowest = (port : ℤ) × (o ≡ some port) × (lowest ≤ℤ port) × (port ≤ℤ pos 65535)

given_port-IsGiven : (o : Option ℤ) (lowest : ℤ) → given_port o lowest ≡ true → IsGiven o lowest
unfolding IsGiven valid_port
given_port-IsGiven none lowest h = cc
given_port-IsGiven (some port) lowest h = (port, refl, grind tests, grind tests)

-- What to listen on: one local port, or the two ports of a container.
pub data Listens (request : SystemUpdatePortCreateRequestV2) : Type 0 where
  listens_locally :
      IsGiven request.new_local_listen_port (pos 1024)
      → request.new_published_port ≡ none
      → request.new_container_port ≡ none
      → Listens request
  listens_in_container :
      request.new_local_listen_port ≡ none
      → IsGiven request.new_published_port (pos 1024)
      → IsGiven request.new_container_port (pos 1024)
      → Listens request

-- What to advertise: nothing new, or one port.
pub data Advertises (request : SystemUpdatePortCreateRequestV2) : Type 0 where
  advertises_nothing :
      request.mode ≡ Mode.local_only → request.new_advertised_port ≡ none → Advertises request
  advertises_port :
      request.mode ≡ Mode.local_and_advertised
      → IsGiven request.new_advertised_port (pos 1)
      → Advertises request

local_inputs-Listens :
    (request : SystemUpdatePortCreateRequestV2) → local_inputs request ≡ true → Listens request
unfolding local_inputs
local_inputs-Listens request h = elim (Bool-cases (is_nil request.new_local_listen_port)) [
  | inl absent ↦
      let both : (given_port request.new_published_port (pos 1024)
            && given_port request.new_container_port (pos 1024))
          ≡ true =
        grind arith in
      let (published, container) = and_true _ _ both in
      listens_in_container (none_of_nil _ absent) (given_port-IsGiven _ _ published)
        (given_port-IsGiven _ _ container)
  | inr present ↦
      let all_three : (given_port request.new_local_listen_port (pos 1024)
            && is_nil request.new_published_port
            && is_nil request.new_container_port)
          ≡ true =
        grind arith in
      let (two, container) = and_true _ _ all_three in
      let (local, published) = and_true _ _ two in
      listens_locally (given_port-IsGiven _ _ local) (none_of_nil _ published)
        (none_of_nil _ container)
]

advertised_inputs-Advertises :
    (request : SystemUpdatePortCreateRequestV2)
    → advertised_inputs request ≡ true
    → Advertises request
unfolding advertised_inputs
advertised_inputs-Advertises request h = elim (if-cases (request.mode == Mode.local_only) _ _ h) [
  | inl (e, t) ↦ advertises_nothing ((eq_iff _ _).0 e) (none_of_nil _ t)
  | inr h ↦ elim (if-cases (request.mode == Mode.local_and_advertised) _ _ h) [
    | inl (e, t) ↦ advertises_port ((eq_iff _ _).0 e) (given_port-IsGiven _ _ t)
    | inr impossible ↦ cc
  ]
]

-- An accepted request for a port change gives one local port and no container's, or the two ports
-- of a container and no local one, each from 1024 to 65535; and an advertised port, from 1 to
-- 65535, in the mode local_and_advertised only.
pub validate_create-inputs :
    (request : SystemUpdatePortCreateRequestV2)
    → validate_create request ≡ pass
    → Listens request × Advertises request
unfolding validate_create
validate_create-inputs request h =
    let (fields, after) =
      require-passes (create_fields request) system_update_port_contract _ _ h in
    let (local, last) =
      require-passes (local_inputs request) system_update_port_contract _ _ after in
    let advertised : advertised_inputs request ≡ true = grind arith in
    (local_inputs-Listens request local, advertised_inputs-Advertises request advertised)
