-- ===== src/Idempotency/Tests.antt =====
-- Ids of binance_th/idempotency.py.
use binance_th.Prelude.{◌≡◌, refl, ◌≤◌, length}
use binance_th.Prelude.Text.{codes}
use binance_th.Idempotency.{
  base36, read36, mint_client_order_id, AllSafe, read36-base36, mint-AllSafe,
}

base36_runs :
    (base36 0 ≡ codes "0") × (base36 35 ≡ codes "z") × (base36 1720000000000 ≡ codes "ly5nl9ts")
unfolding base36
base36_runs = (refl, refl, refl)

read36-base36_example : read36 0 (base36 1720000000000) ≡ 1720000000000
read36-base36_example = read36-base36 1720000000000

mint-AllSafe_example :
    AllSafe (mint_client_order_id (codes "xTHPY") 1720000000000 (codes "aB3"))
    × (length (mint_client_order_id (codes "xTHPY") 1720000000000 (codes "aB3")) ≤ 36)
mint-AllSafe_example =
    mint-AllSafe (codes "xTHPY") 1720000000000 (codes "aB3")
      (refl, (refl, (refl, (refl, (refl, tt))))) (refl, (refl, (refl, tt)))
