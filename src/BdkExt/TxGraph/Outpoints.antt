-- ===== src/BdkExt/TxGraph/Outpoints.antt =====
-- Which transactions the graph holds once the loop over the outpoints has ended.
use mwck_rs.Prelude.{
  ◌≡◌, refl, sym, ap, subst, ◌∙◌, Bool, true, false, ◌||◌, Option, none, some, List, [], ◌∷◌, arith,
  ◌==◌, if◌then◌else◌, All, Bool-cases, inl, inr,
}
use mwck_rs.Esplora.{Txid}
use mwck_rs.Api.{Result, ok, err}
use mwck_rs.BdkExt.{anchor_from_status, ConfirmationTimeAnchor, insert_some_anchor}
use mwck_rs.BdkExt.TxGraph.{
  TxGraph, TxClient, OutPoint, and_ok, scanned, insert_some_tx, fetch_missing, fetch_spender,
  fetch_outpoint, fetch_outpoints,
}

-- What `TxGraph` documents: an inserted transaction is there, under its txid, beside the others;
-- an anchor adds none.
pub record IsTxGraph {T G : Type 0} (ops : TxGraph T G) (txid_of : T → Txid) : Type 0 where
  pub has_tx-insert_tx :
      (j : Txid) (tx : T) (graph : G)
      → ops.has_tx j (ops.insert_tx tx graph) ≡ (txid_of tx == j || ops.has_tx j graph)
  pub has_tx-insert_anchor :
      (j txid : Txid) (anchor : ConfirmationTimeAnchor) (graph : G)
      → ops.has_tx j (ops.insert_anchor txid anchor graph) ≡ ops.has_tx j graph

pub and_ok-ok :
    {E A B : Type 0} (r : Result E A) (f : A → Result E B) (b : B)
    → and_ok r f ≡ ok b
    → (a : A) × (r ≡ ok a) × (f a ≡ ok b)
and_ok-ok (ok a) f b e = (a, refl, e)
and_ok-ok (err x) f b e = cc e

-- Where the test holds, the result is the first branch, and so on.
pub if_true : {A : Type 0} (b : Bool) (x y z : A) → b ≡ true → (if b then x else y) ≡ z → x ≡ z
if_true true x y z h e = e
if_true false x y z h e = cc h

pub if_false : {A : Type 0} (b : Bool) (x y z : A) → b ≡ false → (if b then x else y) ≡ z → y ≡ z
if_false true x y z h e = cc h
if_false false x y z h e = e

pub ok_inj : {E A : Type 0} (a b : A) → ◌≡◌ {A = Result E A} (ok a) (ok b) → a ≡ b
ok_inj a b e = ap (λ r. elim r [ ok x ↦ x | err x ↦ a ]) e

module _ {T G E : Type 0} (ops : TxGraph T G) (client : TxClient T E) (txid_of : T → Txid)
    (laws : IsTxGraph ops txid_of) where
  -- The graph has every transaction of another.
  abbrev pub Extends : G → G → Type 0
  Extends graph graph' = (j : Txid) → ops.has_tx j graph ≡ true → ops.has_tx j graph' ≡ true

  pub insert_some_anchor-has :
      (j txid : Txid) (a : Option ConfirmationTimeAnchor) (graph : G)
      → ops.has_tx j (insert_some_anchor (scanned ops client) txid a graph) ≡ ops.has_tx j graph
  insert_some_anchor-has j txid none graph = refl
  insert_some_anchor-has j txid (some a) graph = laws.has_tx-insert_anchor j txid a graph

  insert_some_tx-Extends :
      (tx : Option T) (graph : G) → Extends graph (insert_some_tx ops client tx graph)
  insert_some_tx-Extends none graph j h = h
  insert_some_tx-Extends (some tx) graph j h = ground (arith, laws.has_tx-insert_tx j tx graph)

  -- The server has the transaction of this txid.
  abbrev pub Knows : Txid → Type 0
  Knows txid = (tx : T) × (client.get_tx txid ≡ ok (some tx)) × (txid_of tx ≡ txid)

  -- Of an output that is spent, the spending transaction is held.
  abbrev pub IsSpenderHeld : Result E (Option (Option Txid)) → G → Type 0
  IsSpenderHeld (err e) graph = Unit
  IsSpenderHeld (ok none) graph = Unit
  IsSpenderHeld (ok (some none)) graph = Unit
  IsSpenderHeld (ok (some (some txid))) graph = ops.has_tx txid graph ≡ true

  abbrev pub IsHeld : G → OutPoint → Type 0
  IsHeld graph op =
      (ops.has_tx op.txid graph ≡ true)
      × IsSpenderHeld (client.get_output_status op.txid op.vout) graph

  fetch_missing-Extends :
      (txid : Txid) (graph graph' : G)
      → fetch_missing ops client txid graph ≡ ok graph'
      → Extends graph graph'
  unfolding fetch_missing
  fetch_missing-Extends txid graph graph' e = elim (Bool-cases (ops.has_tx txid graph)) [
    | inl held ↦
        λ j h. subst (λ g. ops.has_tx j g ≡ true) (ok_inj graph graph' (if_true _ _ _ _ held e)) h
    | inr lacks ↦
        let (tx, got, e') = and_ok-ok (client.get_tx txid) _ graph' (if_false _ _ _ _ lacks e) in
        let (status, _, e'') = and_ok-ok (client.get_tx_status txid) _ graph' e' in
        λ j h.
          subst (λ g. ops.has_tx j g ≡ true) (ok_inj _ graph' e'')
            (insert_some_anchor-has j txid (anchor_from_status status) _
              ∙ insert_some_tx-Extends tx graph j h)
  ]

  fetch_missing-has :
      (txid : Txid) (graph graph' : G)
      → Knows txid
      → fetch_missing ops client txid graph ≡ ok graph'
      → ops.has_tx txid graph' ≡ true
  unfolding fetch_missing
  fetch_missing-has txid graph graph' (tx, got, own) e = elim (Bool-cases (ops.has_tx txid graph)) [
    | inl held ↦
        subst (λ g. ops.has_tx txid g ≡ true) (ok_inj graph graph' (if_true _ _ _ _ held e)) held
    | inr lacks ↦
        let (found, got', e') =
          and_ok-ok (client.get_tx txid) _ graph' (if_false _ _ _ _ lacks e) in
        let (status, _, e'') = and_ok-ok (client.get_tx_status txid) _ graph' e' in
        let same : some tx ≡ found = ok_inj (some tx) found (sym got ∙ got') in
        subst (λ g. ops.has_tx txid g ≡ true) (ok_inj _ graph' e'')
          (insert_some_anchor-has txid txid (anchor_from_status status) _
            ∙ subst (λ o. ops.has_tx txid (insert_some_tx ops client o graph) ≡ true) same
                (laws.has_tx-insert_tx txid tx graph ∙ ground (arith, own)))
  ]

  fetch_spender-held :
      (r : Option (Option Txid)) (graph graph' : G)
      → ((j : Txid) → r ≡ some (some j) → Knows j)
      → fetch_spender ops client r graph ≡ ok graph'
      → Extends graph graph' × IsSpenderHeld (ok r) graph'
  unfolding fetch_spender
  fetch_spender-held none graph graph' k e =
      (λ j h. subst (λ g. ops.has_tx j g ≡ true) (ok_inj graph graph' e) h, tt)
  fetch_spender-held (some none) graph graph' k e =
      (λ j h. subst (λ g. ops.has_tx j g ≡ true) (ok_inj graph graph' e) h, tt)
  fetch_spender-held (some (some txid)) graph graph' k e = (
    fetch_missing-Extends txid graph graph' e,
    fetch_missing-has txid graph graph' (k txid refl) e,
  )

  fetch_outpoint-Extends :
      (op : OutPoint) (graph graph' : G)
      → Knows op.txid
      → ((j : Txid) → client.get_output_status op.txid op.vout ≡ ok (some (some j)) → Knows j)
      → fetch_outpoint ops client op graph ≡ ok graph'
      → Extends graph graph' × IsHeld graph' op
  unfolding fetch_outpoint
  fetch_outpoint-Extends op graph graph' k ks e =
      let (middle, first, e') = and_ok-ok (fetch_missing ops client op.txid graph) _ graph' e in
      let (status, got, last) = and_ok-ok (client.get_output_status op.txid op.vout) _ graph' e' in
      let (over, held) =
        fetch_spender-held status middle graph' (λ j q. ks j (got ∙ ap ok q)) last in
      (
        λ j h. over j (fetch_missing-Extends op.txid graph middle first j h),
        (
          over op.txid (fetch_missing-has op.txid graph middle k first),
          subst (λ r. IsSpenderHeld r graph') (sym got) held,
        ),
      )

  IsSpenderHeld-Extends :
      (r : Result E (Option (Option Txid))) (graph graph' : G)
      → Extends graph graph'
      → IsSpenderHeld r graph
      → IsSpenderHeld r graph'
  IsSpenderHeld-Extends (err e) graph graph' x h = tt
  IsSpenderHeld-Extends (ok none) graph graph' x h = tt
  IsSpenderHeld-Extends (ok (some none)) graph graph' x h = tt
  IsSpenderHeld-Extends (ok (some (some j))) graph graph' x h = x j h

  pub fetch_outpoints-Extends :
      (outpoints : List OutPoint) (graph graph' : G)
      → All (λ (op : OutPoint). Knows op.txid) outpoints
      → ((op : OutPoint) (j : Txid)
          → client.get_output_status op.txid op.vout ≡ ok (some (some j))
          → Knows j)
      → fetch_outpoints ops client outpoints graph ≡ ok graph'
      → Extends graph graph' × All (IsHeld graph') outpoints
  unfolding fetch_outpoints
  fetch_outpoints-Extends [] graph graph' k ks e =
      (λ j h. subst (λ g. ops.has_tx j g ≡ true) (ok_inj graph graph' e) h, tt)
  fetch_outpoints-Extends (op ∷ ops') graph graph' k ks e =
      let (middle, first, e') = and_ok-ok (fetch_outpoint ops client op graph) _ graph' e in
      let (x, (held, spender)) = fetch_outpoint-Extends op graph middle k.0 (ks op) first in
      let (y, rest) = fetch_outpoints-Extends ops' middle graph' k.1 ks e' in
      (
        λ j h. y j (x j h),
        ((y op.txid held, IsSpenderHeld-Extends _ middle graph' y spender), rest),
      )

  -- Where the server has the transaction of every outpoint and every spending transaction that it
  -- names for one, and the loop over the outpoints fails in no request: the graph at its end has of
  -- each outpoint the transaction, and the one that spends it if there is one.
  pub fetch_outpoints-IsHeld :
      (outpoints : List OutPoint) (graph graph' : G)
      → All (λ (op : OutPoint). Knows op.txid) outpoints
      → ((op : OutPoint) (j : Txid)
          → client.get_output_status op.txid op.vout ≡ ok (some (some j))
          → Knows j)
      → fetch_outpoints ops client outpoints graph ≡ ok graph'
      → All (IsHeld graph') outpoints
  fetch_outpoints-IsHeld outpoints graph graph' k ks e =
      (fetch_outpoints-Extends outpoints graph graph' k ks e).1
