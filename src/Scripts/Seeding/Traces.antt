-- ===== src/Scripts/Seeding/Traces.antt =====
-- The three traces of scripts/seed-database.ts. The events from the k-th id on, with the count of the
-- ids after them.
use raceway.Prelude.{ℕ, ◌+◌, List, [], ◌∷◌, none, some}
use raceway.Text.{Text, codes}
use raceway.Json.{null, num, obj, end}
use raceway.Scripts.Seeding.{
  Platform, Event, object, text, function_call, state_change, database_query, http_request,
  http_response, async_spawn, lasting, create_event,
}

module _ (platform : Platform) where
  unfoldable pub create_trace1 : Text → ℕ → List Event × ℕ
  unfolding codes create_event function_call state_change database_query http_request http_response
      async_spawn lasting text
  create_trace1 trace_id k =
      let e1 =
        create_event platform trace_id
          (function_call "transfer_money" "banking"
            (object
              ((codes "from", text "A") ∷ (codes "to", text "B") ∷ (codes "amount", num 100) ∷ []))
            "banking.ts" 42)
          none (codes "banking-service") (codes "thread-1") 0 k in
      let e2 =
        create_event platform trace_id
          (state_change "account_balance" null (num 1000) "banking.ts:45" "Read") (some e1.id)
          (codes "banking-service") (codes "thread-1") 10 (k + 1) in
      let e3 =
        create_event platform trace_id
          (function_call "transfer_money" "banking"
            (object
              ((codes "from", text "A") ∷ (codes "to", text "C") ∷ (codes "amount", num 50) ∷ []))
            "banking.ts" 42)
          none (codes "banking-service") (codes "thread-2") 5 (k + 2) in
      let e4 =
        create_event platform trace_id
          (state_change "account_balance" null (num 1000) "banking.ts:45" "Read") (some e3.id)
          (codes "banking-service") (codes "thread-2") 15 (k + 3) in
      let e5 =
        create_event platform trace_id
          (state_change "account_balance" (num 1000) (num 900) "banking.ts:52" "Write") (some e1.id)
          (codes "banking-service") (codes "thread-1") 20 (k + 4) in
      let e6 =
        create_event platform trace_id
          (state_change "account_balance" (num 1000) (num 950) "banking.ts:52" "Write") (some e3.id)
          (codes "banking-service") (codes "thread-2") 22 (k + 5) in
      let e7 =
        create_event platform trace_id (database_query "COMMIT" "postgres" 5) (some e1.id)
          (codes "banking-service") (codes "thread-1") 30 (k + 6) in
      let e8 =
        create_event platform trace_id (database_query "COMMIT" "postgres" 5) (some e3.id)
          (codes "banking-service") (codes "thread-2") 32 (k + 7) in
      (e1 ∷ e2 ∷ e3 ∷ e4 ∷ e5 ∷ e6 ∷ e7 ∷ e8 ∷ [], k + 8)

  unfoldable pub create_trace2 : Text → ℕ → List Event × ℕ
  unfolding codes create_event function_call state_change database_query http_request http_response
      async_spawn lasting text
  create_trace2 trace_id k =
      let e1 = lasting 50_000_000 (
        create_event platform trace_id (function_call "get_users" "api" (obj end) "api.ts" 10) none
          (codes "api-service") (codes "thread-1") 0 k) in
      let e2 =
        create_event platform trace_id (database_query "SELECT * FROM users" "postgres" 45)
          (some e1.id) (codes "api-service") (codes "thread-1") 50 (k + 1) in
      let e3 = lasting 5_000_000_000 (
        create_event platform trace_id (function_call "get_users" "api" (obj end) "api.ts" 10) none
          (codes "api-service") (codes "thread-1") 100 (k + 2)) in
      let e4 =
        create_event platform trace_id (database_query "SELECT * FROM users" "postgres" 4950)
          (some e3.id) (codes "api-service") (codes "thread-1") 5100 (k + 3) in
      let e5 = lasting 3_000_000_000 (
        create_event platform trace_id (function_call "get_orders" "api" (obj end) "api.ts" 25) none
          (codes "api-service") (codes "thread-1") 5200 (k + 4)) in
      let e6 =
        create_event platform trace_id (database_query "SELECT * FROM orders" "postgres" 2950)
          (some e5.id) (codes "api-service") (codes "thread-1") 8200 (k + 5) in
      let e7 =
        create_event platform trace_id
          (http_request "GET" "https://api.slow-service.com/data" (obj end) null) none
          (codes "api-service") (codes "thread-1") 8300 (k + 6) in
      let e8 = lasting 8_000_000_000 (
        create_event platform trace_id (http_response 200 (obj end) null 8000) (some e7.id)
          (codes "api-service") (codes "thread-1") 16300 (k + 7)) in
      (e1 ∷ e2 ∷ e3 ∷ e4 ∷ e5 ∷ e6 ∷ e7 ∷ e8 ∷ [], k + 8)

  unfoldable pub create_trace3 : Text → ℕ → List Event × ℕ
  unfolding codes create_event function_call state_change database_query http_request http_response
      async_spawn lasting text
  create_trace3 trace_id k =
      let e1 =
        create_event platform trace_id
          (http_request "POST" "/api/cart/checkout" (obj end)
            (object ((codes "user_id", num 123) ∷ [])))
          none (codes "api-gateway") (codes "thread-1") 0 k in
      let inventory_task_id = platform.uuid (k + 1) in
      let e2 =
        create_event platform trace_id (async_spawn inventory_task_id "checkout_handler")
          (some e1.id) (codes "api-gateway") (codes "thread-1") 10 (k + 2) in
      let e3 =
        create_event platform trace_id
          (state_change "inventory_count" null (num 10) "inventory.ts:15" "Read") none
          (codes "inventory-service") (codes "thread-2") 15 (k + 3) in
      let e4 =
        create_event platform trace_id
          (state_change "inventory_count" null (num 10) "inventory.ts:15" "Read") none
          (codes "inventory-service") (codes "thread-3") 17 (k + 4) in
      let e5 =
        create_event platform trace_id
          (state_change "inventory_count" (num 10) (num 9) "inventory.ts:22" "Write") none
          (codes "inventory-service") (codes "thread-2") 20 (k + 5) in
      let e6 =
        create_event platform trace_id
          (state_change "inventory_count" (num 10) (num 9) "inventory.ts:22" "Write") none
          (codes "inventory-service") (codes "thread-3") 21 (k + 6) in
      let e7 = lasting 10_000_000_000 (
        create_event platform trace_id
          (function_call "process_payment" "payment"
            (object ((codes "amount", platform.amount) ∷ [])) "payment.ts" 50)
          (some e1.id) (codes "payment-service") (codes "thread-1") 30 (k + 7)) in
      let e8 = lasting 5_000_000_000 (
        create_event platform trace_id
          (database_query "INSERT INTO orders VALUES (...)" "postgres" 5000) (some e1.id)
          (codes "order-service") (codes "thread-1") 10040 (k + 8)) in
      let e9 =
        create_event platform trace_id
          (http_response 200 (obj end) (object ((codes "order_id", num 456) ∷ [])) 10100)
          (some e1.id) (codes "api-gateway") (codes "thread-1") 10150 (k + 9) in
      (e1 ∷ e2 ∷ e3 ∷ e4 ∷ e5 ∷ e6 ∷ e7 ∷ e8 ∷ e9 ∷ [], k + 10)
