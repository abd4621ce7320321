-- ===== src/Schema.antt =====
-- src/schema.rs: column types and table descriptors. The queries that fill a descriptor are SQL
-- over the network and are not modelled.
use Prim.Native.String.{String}
use open_ltap.Base.{ℕ, Bool, List, Option, Result, ok, err, unsupported, ◌==◌, ◌||◌, if◌then◌else◌}

pub data PgType : Type 0 where
  bool int2 int4 int8 float4 float8 text bytea uuid numeric jsonb date : PgType
  timestamp timestamp_tz : PgType

-- `PgType::from_oid`.
pub from_oid : ℕ → Result PgType
from_oid oid =
    if oid == 16
    then ok PgType.bool
    else if oid == 21
    then ok int2
    else if oid == 23
    then ok int4
    else if oid == 20
    then ok int8
    else if oid == 700
    then ok float4
    else if oid == 701
    then ok float8
    else if oid == 25 || oid == 1043 || oid == 1042
    then ok text
    else if oid == 114 || oid == 142
    then ok text
    else if oid == 17
    then ok bytea
    else if oid == 2950
    then ok uuid
    else if oid == 1700
    then ok numeric
    else if oid == 3802
    then ok jsonb
    else if oid == 1082
    then ok date
    else if oid == 1114
    then ok timestamp
    else if oid == 1184
    then ok timestamp_tz
    else err unsupported

pub record Col : Type 0 where
  pub name : String
  pub ty : PgType

-- A physical attribute slot. `attlen` is none for -1, a varlena.
pub data PhysCol : Type 0 where
  live : Col → PhysCol
  dropped : Option ℕ → ℕ → PhysCol

pub record TableDesc : Type 0 where
  pub name : String
  pub oid : ℕ
  pub db_oid : ℕ
  pub rel_node : ℕ
  pub toast_rel_node : Option ℕ
  pub cols : List Col
  pub phys : List PhysCol
  pub has_fast_defaults : Bool
  pub pk : List String
