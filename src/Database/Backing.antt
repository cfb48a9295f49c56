-- ===== src/Database/Backing.antt =====
-- The property that the order of the program's writes is there to keep: each key that the data plane
-- serves is backed by an ACTIVE row of the control plane, so that no one has access without one.
use mathlib.Core.Logic.{◌≢◌}
use vpn_backend.Base.{
  true, false, none, some, String, str_eq, eq_iff, ◌≡◌, ap, inl, inr, Bool-cases, arith,
}
use vpn_backend.Models.{Uuid, AccessKey, AccessKeyStatus, is_active_key}
use vpn_backend.Database.View.{View, Rows, put, remove, add_live, drop_live}
use vpn_backend.Database.Laws.{set_access_keys}
use vpn_backend.Provider.Laws.{set_live}

-- An ACTIVE row that refers to the data plane's key `r`.
pub record Backs (keys : Rows AccessKey) (r : String) : Type 0 where
  pub id : Uuid
  pub key : AccessKey
  pub stored : keys id ≡ some key
  pub active : key.status ≡ AccessKeyStatus.active
  pub refers : key.secret_reference ≡ r

abbrev pub IsBacked : View → Type 0
IsBacked v = (r : String) → v.live r ≡ true → Backs v.access_keys r

pub drop-IsBacked :
    (v : View) (r : String) → IsBacked v → IsBacked (set_live (drop_live r v.live) v)
drop-IsBacked v r h s live = h s (ground (arith, eq_iff r s))

-- The row of a key that is not served may be written or removed.
pub Backs-other :
    (v : View) (i : Uuid) (k : AccessKey) (r : String)
    → v.access_keys i ≡ some k
    → v.live k.secret_reference ≡ false
    → v.live r ≡ true
    → (b : Backs v.access_keys r) → b.id ≢ i
Backs-other v i k r stored dead live b e =
    let same : k ≡ b.key = cc (ap v.access_keys e, b.stored) in
    cc (ap (λ (x : AccessKey). v.live x.secret_reference) same, ap v.live b.refers)

pub write-IsBacked :
    (v : View) (i : Uuid) (k k' : AccessKey)
    → v.access_keys i ≡ some k
    → v.live k.secret_reference ≡ false
    → IsBacked v
    → IsBacked (set_access_keys (put i k' v.access_keys) v)
write-IsBacked v i k k' stored dead h r live =
    let b = h r live in
    let other = Backs-other v i k r stored dead live b in
    record {
      id = b.id;
      key = b.key;
      stored = ground (arith, b.stored, other);
      active = b.active;
      refers = b.refers;
    }

pub remove-IsBacked :
    (v : View) (i : Uuid) (k : AccessKey)
    → v.access_keys i ≡ some k
    → v.live k.secret_reference ≡ false
    → IsBacked v
    → IsBacked (set_access_keys (remove i v.access_keys) v)
remove-IsBacked v i k stored dead h r live =
    let b = h r live in
    let other = Backs-other v i k r stored dead live b in
    record {
      id = b.id;
      key = b.key;
      stored = ground (arith, b.stored, other);
      active = b.active;
      refers = b.refers;
    }

-- A new key that is served, and whose ACTIVE row goes to an identifier that has none.
pub add-IsBacked :
    (v : View) (i : Uuid) (k : AccessKey)
    → v.access_keys i ≡ none
    → k.status ≡ AccessKeyStatus.active
    → IsBacked v
    → IsBacked
        (set_access_keys (put i k v.access_keys) (set_live (add_live k.secret_reference v.live) v))
add-IsBacked v i k free active h r live = elim (Bool-cases (str_eq k.secret_reference r)) [
  | inl same ↦ record {
    id = i;
    key = k;
    stored = ground arith;
    active = active;
    refers = (eq_iff k.secret_reference r).0 same;
  }
  | inr other ↦
      let b = h r (rw other at live) in
      record {
        id = b.id;
        key = b.key;
        stored = ground (arith, b.stored);
        active = b.active;
        refers = b.refers;
      }
]

-- A row that is not ACTIVE backs nothing, and may be removed.
pub remove_idle-IsBacked :
    (v : View) (i : Uuid) (k : AccessKey)
    → v.access_keys i ≡ some k
    → is_active_key k.status ≡ false
    → IsBacked v
    → IsBacked (set_access_keys (remove i v.access_keys) v)
remove_idle-IsBacked v i k stored idle h r live =
    let b = h r live in
    let other : b.id ≢ i = λ e.
      let same : k ≡ b.key = cc (ap v.access_keys e, b.stored) in
      cc (ap (λ (x : AccessKey). is_active_key x.status) same, ap is_active_key b.active) in
    record {
      id = b.id;
      key = b.key;
      stored = ground (arith, b.stored, other);
      active = b.active;
      refers = b.refers;
    }
