-- ===== src/Gateway/Metadata.antt =====
-- gateway.go: the metadata of a gateway.
use apigw.Common.{
  String, ◌==◌, eq_iff, if◌then◌else◌, Bool, true, false, Option, none, some, ◌≡◌, ◌≢◌, arith,
  ==-false_of_ne, inl, inr, Option-cases, not, or_else,
}
use apigw.Dict.{Dict, lookup, insert, delete, has}
use apigw.Dict.Laws.{lookup-insert, lookup-delete}
use apigw.Types.{Outcome, returns, panic}
use apigw.Gateway.{Gateway}

-- A value is an `interface{}`: `none` is nil.
module _ {W C R : Type 0} where
  unfoldable pub set_metadata_force : String → Option C → Gateway W C R → Outcome (Gateway W C R)
  set_metadata_force key none g =
      if key == ""
      then panic "Gateway.SetMetadataForce: key is empty"
      else panic "Gateway.SetMetadataForce: value is nil"
  set_metadata_force key (some value) g =
      if key == ""
      then panic "Gateway.SetMetadataForce: key is empty"
      else returns (record g { mdata = insert key value g.mdata })

  unfoldable pub set_metadata : String → Option C → Gateway W C R → Outcome (Gateway W C R × Bool)
  set_metadata key none g =
      if key == ""
      then panic "Gateway.SetMetadata: key is empty"
      else panic "Gateway.SetMetadata: value is nil"
  set_metadata key (some value) g =
      if key == ""
      then panic "Gateway.SetMetadata: key is empty"
      else if has key g.mdata
      then returns (g, false)
      else returns (record g { mdata = insert key value g.mdata }, true)

  unfoldable pub del_metadata : String → Gateway W C R → Outcome (Gateway W C R × Option C)
  del_metadata key g =
      if key == ""
      then panic "Gateway.DelMetadata: key is empty"
      else returns (record g { mdata = delete key g.mdata }, lookup key g.mdata)

  unfoldable pub get_metadata : String → Gateway W C R → Outcome (Option C)
  get_metadata key g =
      if key == "" then panic "Gateway.GetMetadata: key is empty" else returns (lookup key g.mdata)

  -- The copy that `GetMetadatas` makes.
  unfoldable pub get_metadatas : Gateway W C R → Dict C
  get_metadatas g = g.mdata

  module _ (key other : String) (v : C) (g : Gateway W C R) (k : key ≢ "") (o : other ≢ "") where
    -- What another call of `GetMetadata` returns.
    abbrev ReadsAs : Gateway W C R → Option C → Type 0
    ReadsAs h value =
        get_metadata other h ≡ (if key == other then returns value else get_metadata other g)

    -- `SetMetadataForce` makes a key that is not empty read as the value, and any other key as
    -- before.
    pub get_metadata-set_metadata_force :
        (h : Gateway W C R) × (set_metadata_force key (some v) g ≡ returns h) × ReadsAs h (some v)
    unfolding set_metadata_force get_metadata
    get_metadata-set_metadata_force = (
      record g { mdata = insert key v g.mdata },
      rw (==-false_of_ne key "" k),
      ground (arith, ==-false_of_ne other "" o, lookup-insert key other v g.mdata),
    )

    -- `SetMetadata` makes a key that is not empty read as the value only if it has none yet, which
    -- it reports, and otherwise as before; any other key reads as before.
    pub get_metadata-set_metadata :
        (h : Gateway W C R) × (set_metadata key (some v) g ≡ returns (h, not (has key g.mdata)))
        × ReadsAs h (some (or_else (lookup key g.mdata) v))
    unfolding set_metadata get_metadata
    get_metadata-set_metadata = elim (Option-cases (lookup key g.mdata)) [
      | inl absent ↦ (
        record g { mdata = insert key v g.mdata },
        rw (==-false_of_ne key "" k, absent),
        ground (arith, ==-false_of_ne other "" o, lookup-insert key other v g.mdata),
      )
      | inr (old, present) ↦ (
        g,
        rw (==-false_of_ne key "" k, present),
        ground (arith, ==-false_of_ne other "" o, eq_iff key other),
      )
    ]

    -- `DelMetadata` returns the value of a key that is not empty and makes the key read as nil, and
    -- any other key as before.
    pub get_metadata-del_metadata :
        (h : Gateway W C R) × (del_metadata key g ≡ returns (h, lookup key g.mdata))
        × ReadsAs h none
    unfolding del_metadata get_metadata
    get_metadata-del_metadata = (
      record g { mdata = delete key g.mdata },
      rw (==-false_of_ne key "" k),
      ground (arith, ==-false_of_ne other "" o, lookup-delete key other g.mdata),
    )
