-- ===== src/Storage/Tests.antt =====
-- A cache, a host and a limiter to run the storage with, runs of it, and the storage's theorems at
-- them.
use genvm_executor.Base.{
  ℕ, zero, suc, ◌+◌, ◌-◌, ◌*◌, ◌%◌, ◌≡◌, refl, sym, ◌⊎◌, inl, inr, Bool, true, false, ltb,
  Bool-cases, Option, none, some, List, [], ◌∷◌, ◌++◌, arith, ◌==◌, if◌then◌else◌, take, get_or,
}
use genvm_executor.Memory.Limiter.{new, consume}
use genvm_executor.Calldata.Text.{str_lt}
use genvm_executor.Calldata.Value.{Value, nil, cons}
use genvm_executor.Calldata.Encoder.{vec_writer}
use genvm_executor.Calldata.Format.{encoding}
use genvm_executor.Fees.Abi.{be_bytes}
use genvm_executor.Storage.KeyBytes.{to_bytes-page_lt}
use genvm_executor.Storage.Encoding.{encode_delta, encode_delta-encoding}
use genvm_executor.Storage.Chunks.{all_pages_of}
use genvm_executor.Storage.Deltas.{make_delta_lem}
use genvm_executor.Storage.Pages.{
  Bytes, PageId, Pages, find_page, page_eq, insert_page, page_lt, is_some, Delta, to_bytes,
  make_delta, delta_loop, follows, extend_last, backwards,
}
use genvm_executor.Storage.Access.{
  PageCache, Storage, Outcome, done, out_of_storage, copy_at, copy_page, put_staged, ask_host,
  known_page, cut_prefix, cut_suffix, stage_page, fill_page, fill_pages, fill, read_range, read,
}
use genvm_executor.Storage.Write.{
  settle, put_page, write_page, write_middle, existing_page, write_single_page, write_first,
  write_last, write_range, write,
}
use genvm_executor.Storage.Code.{
  zeros, check_major_and_resolve_code_slot, read_code_at, write_code, write_major, deploy,
}
use genvm_executor.Storage.Buffers.{slice}
use genvm_executor.Storage.View.{IsPageCache, IsFresh, HostStores}
use genvm_executor.Storage.ReadLaws.{Reads, read-byte_of}
use genvm_executor.Storage.Insert.{page_eq→eq}
use genvm_executor.Storage.Refines.{IsWritten, write_lem}
use genvm_executor.Storage.RoundTrip.{read-write}
use genvm_executor.Storage.Load.{load-deploy}

-- A cache of the 128 pages that were put there last.
abbrev get_listed : Pages → PageId → Pages × Option Bytes
get_listed c id = (c, find_page c id)

abbrev put_listed : Pages → PageId → Bytes → Pages
put_listed c id page = take 128 ((id, page) ∷ c)

abbrev listed : PageCache Pages
listed = record { get = get_listed; put = put_listed }

find_page-take :
    (n : ℕ) (c : Pages) (id : PageId) (p : Bytes)
    → find_page (take n c) id ≡ some p
    → find_page c id ≡ some p
unfolding find_page
find_page-take zero c id p e = absurd (cc e)
find_page-take (suc n) [] id p e = e
find_page-take (suc n) ((k, v) ∷ c) id p e = elim (Bool-cases (page_eq k id)) [
  | inl same ↦ rw same (rw same at e)
  | inr other ↦ rw other (find_page-take n c id p (rw other at e))
]

put_listed_adds :
    (c : Pages) (k : PageId) (p : Bytes) (j : PageId) (q : Bytes)
    → find_page (take 128 ((k, p) ∷ c)) j ≡ some q
    → ((j ≡ k) × (q ≡ p)) ⊎ (find_page c j ≡ some q)
unfolding find_page
put_listed_adds c k p j q e =
    let e' : find_page ((k, p) ∷ c) j ≡ some q = find_page-take 128 ((k, p) ∷ c) j q e in
    elim (Bool-cases (page_eq k j)) [
      | inl same ↦ let f = rw same at e' in inl (sym (page_eq→eq k j same), cc)
      | inr other ↦ inr (rw other at e')
    ]

listed-IsPageCache : IsPageCache listed
listed-IsPageCache = record { get_keeps = λ c k j. refl; put_adds = put_listed_adds }

-- The host's bytes: zeros in slot zero, and the places modulo 251 in the others.
abbrev stored : ℕ → ℕ → ℕ
stored slot place = if slot == 0 then 0 else place % 251

abbrev host : ℕ → ℕ → ℕ → Option Bytes
host slot from n = some (slice (stored slot) from n)

host-HostStores : HostStores host stored
host-HostStores slot from n h = refl

-- A count of pages that may still be written.
abbrev take_pages : ℕ → ℕ → ℕ × Option Bool
take_pages left amount = if ltb left amount then (left, some false) else (left - amount, some true)

abbrev start : Storage Pages ℕ
start = record { pages = []; cache = []; limiter = 100 }

start-IsFresh : IsFresh listed stored []
unfolding find_page
start-IsFresh slot index p e = absurd (cc e)

abbrev three_pages : Bytes
three_pages = slice (λ place. place + 100) 0 70

read-byte_of_example :
    Reads listed listed-IsPageCache host stored host-HostStores start 3 30 40
      (read listed host start 3 30 (zeros 40))
unfolding find_page
read-byte_of_example =
    read-byte_of listed listed-IsPageCache host stored host-HostStores start 3 30 (zeros 40)
      start-IsFresh tt (omega arith) (omega arith)

write_lem_example :
    IsWritten stored start 3 30 three_pages (write take_pages host 3 30 three_pages start)
write_lem_example =
    write_lem take_pages host stored host-HostStores start 3 30 three_pages tt (omega arith)

unfoldable written : Storage Pages ℕ
written = (write take_pages host 3 30 three_pages start).0

written_run : write take_pages host 3 30 three_pages start ≡ (written, done tt)
unfolding written write write_range write_first write_last write_middle write_single_page
    existing_page write_page put_page settle insert_page find_page page_eq page_lt is_some copy_at
written_run = refl

read-write_example :
    ((read listed host written 3 30 (zeros 70)).1 ≡ done three_pages)
    × ((read listed host written 3 30 (zeros 70)).0.pages ≡ written.pages)
read-write_example =
    read-write listed listed-IsPageCache take_pages host stored host-HostStores start written 3 30
      three_pages (zeros 70) start-IsFresh tt (omega arith) written_run refl

unfoldable deployed : Storage Pages ℕ
deployed = (deploy take_pages host 3 7 three_pages start).0

deployed_run : deploy take_pages host 3 7 three_pages start ≡ (deployed, done tt)
unfolding deployed deploy write_code write_major write write_range write_first write_last
    write_middle write_single_page existing_page write_page put_page settle insert_page find_page
    page_eq page_lt is_some copy_at
deployed_run = refl

abbrev checked : Storage Pages ℕ × Outcome ℕ
checked = check_major_and_resolve_code_slot listed host 3 7 deployed

load-deploy_example :
    (checked.1 ≡ done 7)
    × ((read_code_at listed host 7 new 0 checked.0).0.1
        ≡ (if (consume new 0 70).1 then done three_pages else out_of_storage))
    × ((read_code_at listed host 7 new 0 checked.0).1 ≡ (consume new 0 70).0)
unfolding find_page
load-deploy_example =
    load-deploy listed listed-IsPageCache take_pages host stored host-HostStores start deployed 3 7
      three_pages new 0 start-IsFresh tt (omega arith) refl (λ place low high. refl) deployed_run

-- A cache of 128 pages that forgets the page that was used least recently.
unfoldable remove_page : PageId → Pages → Pages
remove_page id [] = []
remove_page id ((k, v) ∷ c) = if page_eq k id then remove_page id c else (k, v) ∷ remove_page id c

unfoldable get_recent : Pages → PageId → Pages × Option Bytes
get_recent c id = elim (find_page c id) [
  | none ↦ (c, none)
  | some page ↦ ((id, page) ∷ remove_page id c, some page)
]

abbrev recent : PageCache Pages
recent = record { get = get_recent; put = λ c id page. take 128 ((id, page) ∷ remove_page id c) }

abbrev sevens : ℕ → Bytes
sevens n = slice (λ place. 7) 0 n

abbrev last_byte : ℕ → Storage Pages ℕ × Outcome Bytes → Option ℕ
last_byte n (s, done buf) = some (get_or buf n 0)
last_byte n _ = none

-- The last byte of a read of `pages` pages of sevens of which only the last one is in the cache.
unfoldable last_of : ℕ → Option ℕ
last_of pages = last_byte (pages * 32 - 1) (
    read recent (λ slot from n. some (sevens n))
      (record { pages = []; cache = ((0, pages - 1), sevens 32) ∷ []; limiter = 0 }) 0 0
      (zeros (pages * 32)))

last_of_136 : last_of 136 ≡ some 7
unfolding last_of read read_range ask_host cut_prefix cut_suffix known_page fill fill_pages
    fill_page stage_page put_staged copy_page copy_at find_page page_eq is_some remove_page
    get_recent
last_of_136 = refl

-- A longer read forgets the last page before it copies it, and leaves the end of the buffer as it was.
last_of_140 : last_of 140 ≡ some 0
unfolding last_of read read_range ask_host cut_prefix cut_suffix known_page fill fill_pages
    fill_page stage_page put_staged copy_page copy_at find_page page_eq is_some remove_page
    get_recent
last_of_140 = refl

abbrev some_pages : Pages
some_pages = ((3, 0), sevens 32) ∷ ((3, 1), zeros 32) ∷ ((5, 1), sevens 32) ∷ []

make_delta_runs :
    make_delta some_pages
    ≡ some ((to_bytes (3, 0), sevens 32 ++ zeros 32) ∷ (to_bytes (5, 1), sevens 32) ∷ [])
unfolding make_delta delta_loop follows extend_last backwards find_page page_eq is_some
make_delta_runs = refl

make_delta_lem_example :
    (deltas : List Delta) × (make_delta some_pages ≡ some deltas)
    × (all_pages_of deltas ≡ some_pages)
unfolding page_lt
make_delta_lem_example = make_delta_lem some_pages (
  (omega arith, omega arith, refl),
  ((omega arith, omega arith, refl), refl, ((omega arith, omega arith, refl), refl, tt)),
)

to_bytes-page_lt_example : str_lt (to_bytes (1, 5)) (to_bytes (1, 1024)) ≡ page_lt (1, 5) (1, 1024)
to_bytes-page_lt_example =
    to_bytes-page_lt (1, 5) (1, 1024) (omega arith) (omega arith) (omega arith) (omega arith)

abbrev short_delta : Delta
short_delta = (to_bytes (3, 0), sevens 32)

encode_delta-encoding_example :
    encode_delta {W = Bytes} [] short_delta
    ≡ []
      ++ encoding
          (Value.array (cons (Value.bytes (to_bytes (3, 0))) (cons (Value.bytes (sevens 32)) nil)))
unfolding to_bytes be_bytes
encode_delta-encoding_example = encode_delta-encoding [] short_delta (omega arith) (omega arith)
