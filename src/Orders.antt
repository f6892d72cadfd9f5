-- ===== src/Orders.antt =====
-- gRPC/stream/server.go: the order service. The stream of a call is the list of what `Recv` yields
-- until its end, and a function that tells whether `Send` takes a message after those sent before.
-- A Go map yields its entries in the order of the list. The price is the float's bits.
pub mod Batches
mod Tests
use go_example.Prelude.{
  ℕ, ◌+◌, Bool, true, false, Option, none, some, List, [], ◌∷◌, ◌++◌, map, ◌==◌, if◌then◌else◌,
  ◌||◌, ◌&&◌,
}
use go_example.Prelude.Dict.{Str, lookup, insert}

pub record Order : Type 0 where
  pub id : Str
  pub items : List Str
  pub description : Str
  pub price : ℕ
  pub destination : Str

pub record Shipment : Type 0 where
  pub id : Str
  pub status : Str
  pub orders_list : List Order

-- `orderMap`
abbrev pub OrderMap : Type 0
OrderMap = List (Str × Order)

abbrev pub order_batch_size : ℕ
order_batch_size = 3

abbrev pub no_order : Order
no_order = record { id = []; items = []; description = []; price = 0; destination = [] }

unfoldable pub add_order : Order → OrderMap → OrderMap
add_order o m = insert o.id o m

-- `none` is the status NotFound.
unfoldable pub get_order : OrderMap → Str → Option Order
get_order m id = lookup id m

-- `orderMap[id]`: the zero value where the id is missing.
unfoldable pub order_at : OrderMap → Str → Order
order_at m id = elim (lookup id m) [ none ↦ no_order | some o ↦ o ]

unfoldable pub is_prefix : Str → Str → Bool
is_prefix [] s = true
is_prefix (x ∷ q) [] = false
is_prefix (x ∷ q) (y ∷ s) = let rest = is_prefix q s in x == y && rest

-- `strings.Contains(s, q)`
unfoldable pub contains : Str → Str → Bool
contains [] q = is_prefix q []
contains (y ∷ s) q = let rest = contains s q in is_prefix q (y ∷ s) || rest

unfoldable pub is_match : List Str → Str → Bool
is_match [] q = false
is_match (item ∷ items) q = contains item q || is_match items q

abbrev pub Sender : Type 0 → Type 0
Sender A = List A → A → Bool

-- What is sent before the first failure, and whether there is none.
unfoldable pub send_all : {A : Type 0} → Sender A → List A → List A → List A × Bool
send_all send sent [] = (sent, true)
send_all send sent (x ∷ xs) =
    let rest = send_all send (sent ++ (x ∷ [])) xs in if send sent x then rest else (sent, false)

unfoldable pub matches : Str → OrderMap → List Order
matches q [] = []
matches q ((key, o) ∷ m) = let rest = matches q m in if is_match o.items q then o ∷ rest else rest

-- `SearchOrders`: the orders sent, and whether there was no error.
unfoldable pub search_orders : Sender Order → OrderMap → Str → List Order × Bool
search_orders send m q = send_all send [] (matches q m)

-- What `Recv` yields before the end of a stream: a message, or an error.
pub data Received (A : Type 0) : Type 0 where
  message : A → Received A
  broken : Received A

-- `UpdateOrders`: the orders, and the ids that the reply lists, or no reply after an error.
unfoldable pub update_orders :
    List (Received Order) → OrderMap → List Str → OrderMap × Option (List Str)
update_orders [] m ids = (m, some ids)
update_orders (broken ∷ rs) m ids = (m, none)
update_orders (message o ∷ rs) m ids = update_orders rs (insert o.id o m) (ids ++ (o.id ∷ []))

abbrev pub Combined : Type 0
Combined = List (Str × Shipment)

-- "cmb - " and "Processed!"
abbrev pub cmb : Str
cmb = b'c' ∷ b'm' ∷ b'b' ∷ b' ' ∷ b'-' ∷ b' ' ∷ []

abbrev pub processed : Str
processed = b'P' ∷ b'r' ∷ b'o' ∷ b'c' ∷ b'e' ∷ b's' ∷ b's' ∷ b'e' ∷ b'd' ∷ b'!' ∷ []

-- The shipment of an order's destination with the order added.
unfoldable pub extended : Order → Option Shipment → Shipment
extended o (some s) = record s { orders_list = s.orders_list ++ (o ∷ []) }
extended o none = record { id = cmb ++ o.destination; status = processed; orders_list = o ∷ [] }

unfoldable pub combine : Order → Combined → Combined
combine o c = insert o.destination (extended o (lookup o.destination c)) c

abbrev pub shipments : Combined → List Shipment
shipments c = map (λ e. e.1) c

-- The loop of `ProcessOrders`: what was sent, and whether there was no error.
unfoldable pub process :
    Sender Shipment
    → OrderMap
    → ℕ
    → Combined
    → List Shipment
    → List (Received Str)
    → List Shipment × Bool
process send m marker c sent [] = send_all send sent (shipments c)
process send m marker c sent (broken ∷ rs) = (sent, false)
process send m marker c sent (message id ∷ rs) =
    let c' = combine (order_at m id) c in
    let shipped = send_all send sent (shipments c') in
    let batched = process send m 0 [] shipped.0 rs in
    let waiting = process send m (marker + 1) c' sent rs in
    if marker == order_batch_size then if shipped.1 then batched else shipped else waiting

unfoldable pub process_orders :
    Sender Shipment → OrderMap → List (Received Str) → List Shipment × Bool
process_orders send m rs = process send m 1 [] [] rs
