-- ===== src/Orders/Batches.antt =====
-- gRPC/stream/server.go: how many orders `ProcessOrders` ships.
use go_example.Prelude.{
  ℕ, ◌+◌, true, Option, List, [], ◌∷◌, ◌++◌, map, ◌≡◌, refl, ◌∙◌, arith, length, length-append,
  append_assoc, append-nil,
}
use go_example.Prelude.Dict.{Str, lookup, insert}
use go_example.Orders.{
  Order, Shipment, OrderMap, order_at, Sender, send_all, Received, message, Combined, extended,
  combine, shipments, process, process_orders,
}

-- The orders in some shipments.
unfoldable pub total : List Shipment → ℕ
total [] = 0
total (s ∷ ss) = length s.orders_list + total ss

total-append : (a b : List Shipment) → total (a ++ b) ≡ total a + total b
unfolding total
total-append [] b = omega arith
total-append (s ∷ a) b = omega (arith, total-append a b)

-- The messages of a stream.
abbrev pub messages : List Str → List (Received Str)
messages ids = map message ids

module _ (send : Sender Shipment)
    (ready : (sent : List Shipment) (s : Shipment) → send sent s ≡ true) where
  send_all_ready : (xs sent : List Shipment) → send_all send sent xs ≡ (sent ++ xs, true)
  unfolding send_all
  send_all_ready [] sent = ground (arith, append-nil sent)
  send_all_ready (x ∷ xs) sent =
      ground
        (arith, ready sent x, send_all_ready xs (sent ++ (x ∷ [])), append_assoc sent (x ∷ []) xs)

  total-insert :
      (o : Order) (c : Combined) (s : Option Shipment)
      → lookup o.destination c ≡ s
      → total (shipments (insert o.destination (extended o s) c)) ≡ total (shipments c) + 1
  unfolding total lookup insert extended
  total-insert o [] s e = ground arith
  total-insert o ((k, t) ∷ c) s e =
      ground (arith, total-insert o c s, e, length-append t.orders_list (o ∷ []))

  process_lem :
      (m : OrderMap) (marker : ℕ) (c : Combined) (sent : List Shipment) (ids : List Str)
      → ((process send m marker c sent (messages ids)).1 ≡ true)
        × (total (process send m marker c sent (messages ids)).0
            ≡ total sent + total (shipments c) + length ids)
  unfolding process combine total
  process_lem m marker c sent [] =
      ground (arith, send_all_ready (shipments c) sent, total-append sent (shipments c))
  process_lem m marker c sent (id ∷ ids) =
      let o = order_at m id in
      let c' = combine o c in
      let more = total-insert o c (lookup o.destination c) refl in
      ground (
        arith,
        send_all_ready (shipments c') sent,
        total-append sent (shipments c'),
        more,
        process_lem m 0 [] (sent ++ shipments c') ids,
        process_lem m (marker + 1) c' sent ids,
      )

  -- Where every `Send` succeeds and the stream has no error, `ProcessOrders` ends without an error,
  -- and the shipments that it sends have together as many orders as ids were received.
  pub process_orders-total :
      (m : OrderMap) (ids : List Str)
      → ((process_orders send m (messages ids)).1 ≡ true)
        × (total (process_orders send m (messages ids)).0 ≡ length ids)
  unfolding process_orders total
  process_orders-total m ids =
      let (ok, count) = process_lem m 1 [] [] ids in (ok, count ∙ omega arith)
