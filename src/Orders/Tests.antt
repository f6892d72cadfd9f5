-- ===== src/Orders/Tests.antt =====
-- Runs of the order service of gRPC/stream/server.go, and the witness of its theorem.
use go_example.Prelude.{true, List, [], ◌∷◌, ◌≡◌, refl, map, length}
use go_example.Prelude.Dict.{Str, lookup, insert, str_eq}
use go_example.Orders.{
  Order, OrderMap, Sender, Shipment, process_orders, process, combine, extended, send_all, order_at,
  no_order,
}
use go_example.Orders.Batches.{messages, total, process_orders-total}

abbrev always : Sender Shipment
always sent s = true

abbrev phone : Order
phone = record no_order { id = b'1' ∷ []; destination = b'A' ∷ [] }

abbrev watch : Order
watch = record no_order { id = b'2' ∷ []; destination = b'B' ∷ [] }

abbrev orders : OrderMap
orders = (phone.id, phone) ∷ (watch.id, watch) ∷ []

abbrev one_destination : List Str
one_destination =
    phone.id ∷ phone.id ∷ phone.id ∷ phone.id ∷ phone.id ∷ phone.id ∷ phone.id ∷ phone.id ∷ []

-- The first batch has three orders, the later ones have four.
batch_sizes :
    map (λ s. length s.orders_list) (process_orders always orders (messages one_destination)).0
    ≡ 3 ∷ 4 ∷ 1 ∷ []
unfolding process_orders process combine extended send_all order_at lookup insert str_eq
batch_sizes = refl

process_orders-total_example :
    ((process_orders always orders (messages (phone.id ∷ watch.id ∷ phone.id ∷ []))).1 ≡ true)
    × (total (process_orders always orders (messages (phone.id ∷ watch.id ∷ phone.id ∷ []))).0 ≡ 3)
process_orders-total_example =
    process_orders-total always (λ sent s. refl) orders (phone.id ∷ watch.id ∷ phone.id ∷ [])
