-- ===== src/Resources/Bounds.antt =====
-- debbuilder/resource_limits.py: what `normalize_policy` accepts and `cpu_quota_usec` maps.
use deb_builder.Base.{
  ◌=t◌, ℕ, ◌*◌, ◌≤◌, Option, none, some, Result, ok, ◌>>=◌, >>=-eq-ok, ◌≡◌, refl, arith, not, all,
  refuse,
}
use deb_builder.Base.Json.{Value, null, int, object, Fields, end, get, keys}
use deb_builder.Resources.Policy.{
  Error, unknown_resource_limit, Limit, memory_max_bytes, tasks_max, cpu_quota_percent,
  io_read_bandwidth_max_bytes_per_sec, io_write_bandwidth_max_bytes_per_sec, Policy, limit, maximum,
  limit_name, limit_value, policy_value, read_limit, read_limits, normalize_policy, cpu_quota_usec,
  dbus_uint64_max, is_limit_name,
}

pub InRange : Limit → Option ℕ → Type 0
InRange f none = Unit
InRange f (some n) = (1 ≤ n) × (n ≤ maximum f)

pub IsPolicy : Policy → Type 0
IsPolicy p = (f : Limit) → InRange f (limit p f)

read_limit-InRange :
    (f : Limit) (v : Option Value) {r : Option ℕ} → read_limit f v ≡ ok r → InRange f r
unfolding read_limit InRange
read_limit-InRange f none h = ground arith
read_limit-InRange f (some null) h = ground arith
read_limit-InRange f (some (int n)) h = ground arith
read_limit-InRange f (some _) h = ground arith

read_limit-limit_value :
    (f : Limit) (r : Option ℕ) → InRange f r → read_limit f (some (limit_value r)) ≡ ok r
unfolding read_limit InRange
read_limit-limit_value f none h = refl
read_limit-limit_value f (some n) h = ground arith

-- The five reads of `read_limits`, in order.
read_all : (a b c d e : Result Error (Option ℕ)) → Result Error Policy
read_all a b c d e = do
  memory ← a
  tasks ← b
  cpu ← c
  reads ← d
  writes ← e
  ok (record { memory = memory; tasks = tasks; cpu = cpu; io_read = reads; io_write = writes })

read_all-ok :
    (a b c d e : Result Error (Option ℕ)) {p : Policy}
    → read_all a b c d e ≡ ok p
    → (a ≡ ok p.memory)
      × (b ≡ ok p.tasks)
      × (c ≡ ok p.cpu)
      × (d ≡ ok p.io_read)
      × (e ≡ ok p.io_write)
unfolding read_all
read_all-ok a b c d e h = ground arith

read_limits-reads :
    (v : Fields) {p : Policy}
    → read_limits v ≡ ok p
    → (f : Limit) → read_limit f (get (limit_name f) v) ≡ ok (limit p f)
unfolding read_limits read_all
read_limits-reads v {p} h f =
    let (_, _, done) =
      >>=-eq-ok (refuse (not (all is_limit_name (keys v))) unknown_resource_limit) _ h in
    let (m, t, c, i, o) =
      read_all-ok (read_limit memory_max_bytes (get (limit_name memory_max_bytes) v))
        (read_limit tasks_max (get (limit_name tasks_max) v))
        (read_limit cpu_quota_percent (get (limit_name cpu_quota_percent) v))
        (read_limit io_read_bandwidth_max_bytes_per_sec
          (get (limit_name io_read_bandwidth_max_bytes_per_sec) v))
        (read_limit io_write_bandwidth_max_bytes_per_sec
          (get (limit_name io_write_bandwidth_max_bytes_per_sec) v))
        done in
    elim f as (λ k. read_limit k (get (limit_name k) v) ≡ ok (limit p k)) [
      | memory_max_bytes ↦ m
      | tasks_max ↦ t
      | cpu_quota_percent ↦ c
      | io_read_bandwidth_max_bytes_per_sec ↦ i
      | io_write_bandwidth_max_bytes_per_sec ↦ o
    ]

read_limits-IsPolicy : (v : Fields) {p : Policy} → read_limits v ≡ ok p → IsPolicy p
unfolding IsPolicy
read_limits-IsPolicy v h f = read_limit-InRange f (get (limit_name f) v) (read_limits-reads v h f)

-- A policy that `normalize_policy` returns has each limit between one and the field's maximum.
pub normalize_policy-IsPolicy : (v : Value) {p : Policy} → normalize_policy v ≡ ok p → IsPolicy p
unfolding normalize_policy
normalize_policy-IsPolicy null h = read_limits-IsPolicy end h
normalize_policy-IsPolicy (object fields) h = read_limits-IsPolicy fields h
normalize_policy-IsPolicy _ h = cc

-- Reading a policy again, from the dictionary that `normalize_policy` returned, gives the same policy.
pub normalize_policy-policy_value :
    (p : Policy) → IsPolicy p → normalize_policy (policy_value p) ≡ ok p
unfolding normalize_policy IsPolicy read_limits get ◌=t◌
normalize_policy-policy_value p h = rw (
  read_limit-limit_value memory_max_bytes p.memory (h memory_max_bytes),
  read_limit-limit_value tasks_max p.tasks (h tasks_max),
  read_limit-limit_value cpu_quota_percent p.cpu (h cpu_quota_percent),
  read_limit-limit_value io_read_bandwidth_max_bytes_per_sec p.io_read
      (h io_read_bandwidth_max_bytes_per_sec),
  read_limit-limit_value io_write_bandwidth_max_bytes_per_sec p.io_write
      (h io_write_bandwidth_max_bytes_per_sec),
)

-- `cpu_quota_usec` maps each percentage from one to the field's maximum to ten thousand times as many
-- microseconds, which fit the 64 bits of the message to systemd.
pub cpu_quota_usec_lem :
    (n : ℕ)
    → 1 ≤ n
    → n ≤ maximum cpu_quota_percent
    → (cpu_quota_usec (int n) ≡ ok (n * 10000)) × (n * 10000 ≤ dbus_uint64_max)
unfolding cpu_quota_usec normalize_policy read_limits get read_limit ◌=t◌
cpu_quota_usec_lem n low high = ground arith
