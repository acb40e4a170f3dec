-- ===== src/Ban/Invariants.antt =====
-- What holds of the indexes of file_storage.rs after any sequence of requests: each key is there once,
-- and each entry lies under the key of its target.
use Prim.Native.String.{String}
use infrarust.Common.{ℕ, ◌≡◌, refl, All, List}
use infrarust.Common.Maps.{nat_key, string_key}
use infrarust.Ban.Types.{BanTarget, ip, username, uuid, BanEntry}
use infrarust.Ban.Storage.{FileBanStorage, BanFile, discard, store, expired_keys, purge_maps}
use infrarust.Common.Keys.{IsUnique, insert-IsUnique, remove-IsUnique, insert-All, remove-All}
use infrarust.Ban.Keys.{remove_all-All}
use infrarust.Ban.Purge.{IsKeyed, purge_maps-IsKeyed}
use infrarust.Ban.Requests.{Request, new, perform_all, requests-Kept}

module _ (to_lowercase : String → String) where
  store-IsKeyed :
      (s : FileBanStorage) (t : BanTarget) (e : BanEntry)
      → IsKeyed s
      → IsKeyed (store to_lowercase s t e)
  unfolding store
  store-IsKeyed s (ip a) e (i, n, u) = (insert-IsUnique a e s.ip_bans i, n, u)
  store-IsKeyed s (username m) e (i, n, u) =
      (i, insert-IsUnique (to_lowercase m) e s.username_bans n, u)
  store-IsKeyed s (uuid a) e (i, n, u) = (i, n, insert-IsUnique a e s.uuid_bans u)

  discard-IsKeyed :
      (s : FileBanStorage) (t : BanTarget) → IsKeyed s → IsKeyed (discard to_lowercase s t)
  unfolding discard
  discard-IsKeyed s (ip a) (i, n, u) = (remove-IsUnique a s.ip_bans i, n, u)
  discard-IsKeyed s (username m) (i, n, u) =
      (i, remove-IsUnique (to_lowercase m) s.username_bans n, u)
  discard-IsKeyed s (uuid a) (i, n, u) = (i, n, remove-IsUnique a s.uuid_bans u)

  -- From a new storage on, each index holds a key once.
  pub perform_all-IsKeyed :
      (file : BanFile) (rs : List Request) → IsKeyed (perform_all to_lowercase (new file) rs)
  perform_all-IsKeyed file rs =
      requests-Kept to_lowercase (λ i n u. IsUnique i × IsUnique n × IsUnique u)
        (λ s e. store-IsKeyed s e.target e) discard-IsKeyed purge_maps-IsKeyed (new file) rs
        (tt, tt, tt)

  -- Every entry lies in the index of its kind, under the key of its own target.
  abbrev pub IpFiled : ℕ × BanEntry → Type 0
  IpFiled (key, e) = e.target ≡ ip key

  abbrev pub NameFiled : String × BanEntry → Type 0
  NameFiled (key, e) = (name : String) × (e.target ≡ username name) × (to_lowercase name ≡ key)

  abbrev pub UuidFiled : ℕ × BanEntry → Type 0
  UuidFiled (key, e) = e.target ≡ uuid key

  abbrev pub IsFiled : FileBanStorage → Type 0
  IsFiled s = All IpFiled s.ip_bans × All NameFiled s.username_bans × All UuidFiled s.uuid_bans

  store-IsFiled :
      (s : FileBanStorage) (t : BanTarget) (e : BanEntry)
      → e.target ≡ t
      → IsFiled s
      → IsFiled (store to_lowercase s t e)
  unfolding store
  store-IsFiled s (ip a) e q (i, n, u) = (insert-All IpFiled a e s.ip_bans q i, n, u)
  store-IsFiled s (username m) e q (i, n, u) =
      (i, insert-All NameFiled (to_lowercase m) e s.username_bans (m, q, refl) n, u)
  store-IsFiled s (uuid a) e q (i, n, u) = (i, n, insert-All UuidFiled a e s.uuid_bans q u)

  discard-IsFiled :
      (s : FileBanStorage) (t : BanTarget) → IsFiled s → IsFiled (discard to_lowercase s t)
  unfolding discard
  discard-IsFiled s (ip a) (i, n, u) = (remove-All IpFiled a s.ip_bans i, n, u)
  discard-IsFiled s (username m) (i, n, u) =
      (i, remove-All NameFiled (to_lowercase m) s.username_bans n, u)
  discard-IsFiled s (uuid a) (i, n, u) = (i, n, remove-All UuidFiled a s.uuid_bans u)

  purge_maps-IsFiled : (s : FileBanStorage) (now : ℕ) → IsFiled s → IsFiled (purge_maps s now)
  unfolding purge_maps
  purge_maps-IsFiled s now (i, n, u) = (
    remove_all-All IpFiled (expired_keys now s.ip_bans) s.ip_bans i,
    remove_all-All NameFiled (expired_keys now s.username_bans) s.username_bans n,
    remove_all-All UuidFiled (expired_keys now s.uuid_bans) s.uuid_bans u,
  )

  -- From a new storage on, after any sequence of loads, bans, unbans, checks and purges, with any
  -- outcome of the writes, every entry lies in the index of its kind under the key of its own
  -- target, names in lower case.
  pub perform_all-IsFiled :
      (file : BanFile) (rs : List Request) → IsFiled (perform_all to_lowercase (new file) rs)
  perform_all-IsFiled file rs =
      requests-Kept to_lowercase (λ i n u. All IpFiled i × All NameFiled n × All UuidFiled u)
        (λ s e. store-IsFiled s e.target e refl) discard-IsFiled purge_maps-IsFiled (new file) rs
        (tt, tt, tt)
