-- ===== src/Backend/Price.antt =====
-- The price cache of `backend/server.js`: `refreshPrices`, `getCurrentPriceCents` and the two REST
-- handlers.
pub mod Current
pub mod Refresh
use irhub.Prelude.{
  ℕ, ◌+◌, Bool, true, false, ◌&&◌, List, [], ◌∷◌, Option, none, some, Text, text, if◌then◌else◌,
  leb, ltb, length,
}
use irhub.Js.{
  Value, undefined, null, num, str, arr, Items, nil, items, of_ℕ, truthy, or_else, field, member,
  Js, ok, type_error, ◌>>=◌, ℤ, pos_part, neg_part,
}
use irhub.Backend.State.{Server, Env, PriceCache}
use irhub.Backend.Http.{Reply, json, thrown, price, prices}

-- What `fetch` and `res.json()` come to: an exception, a status that is not ok, or the JSON data.
pub data Fetched : Type 0 where
  failed : Fetched
  bad_status : ℕ → Fetched
  data_of : Value → Fetched

-- `data.prices || []`
abbrev pub cache_data : Server → Js Value → Server
cache_data s type_error = s
cache_data s (ok v) = record s {
  price_cache = record { prices = or_else v (arr nil); fetched_at = s.now };
}

-- `refreshPrices()`: whatever is thrown is caught, and leaves the cache.
unfoldable pub refresh_prices : Server → Fetched → Server
refresh_prices s failed = s
refresh_prices s (bad_status code) = s
refresh_prices s (data_of v) = cache_data s (member (text "prices") v)

-- `now >= start && now < end`, with `none` for the NaN of a date that cannot be read.
abbrev pub in_block : ℕ → Option ℤ → Option ℤ → Bool
in_block now (some start) (some end) =
    leb (pos_part start) (now + neg_part start) && ltb (now + neg_part end) (pos_part end)
in_block now _ _ = false

-- The block of `prices.find(…)`, in the order of the list. `p.startDate` throws if `p` is null.
unfoldable pub find_block : Env → ℕ → List Value → Js (Option Value)
find_block env now [] = ok none
find_block env now (p ∷ ps) =
    let later = find_block env now ps in
    member (text "startDate") p >>= λ start.
    if in_block now (env.date_ms start) (env.date_ms (field (text "endDate") p))
    then ok (some p)
    else later

-- `priceCache.prices.find` throws if what was cached is no array.
abbrev pub cached_blocks : Value → Js (List Value)
cached_blocks (arr ps) = ok (items ps)
cached_blocks _ = type_error

-- `block ? block.price : null`
abbrev pub price_of : Option Value → Value
price_of none = null
price_of (some block) = if truthy block then field (text "price") block else null

-- `getCurrentPriceCents()`
unfoldable pub get_current_price_cents : Env → Server → Js Value
get_current_price_cents env s = do
  blocks ← cached_blocks s.price_cache.prices
  block ← find_block env s.now blocks
  ok (price_of block)

-- `priceCache.prices.length`, where the cache holds an array.
abbrev pub cached_count : Value → Value
cached_count (arr ps) = num (of_ℕ (length (items ps)))
cached_count _ = undefined

abbrev pub price_reply : Server → Js Value → Reply
price_reply s type_error = thrown
price_reply s (ok cents) =
    json 200 (price cents (cached_count s.price_cache.prices) s.price_cache.fetched_at)

-- `GET /api/price/current`
unfoldable pub get_price_current : Env → Server → Server × Reply
get_price_current env s = (s, price_reply s (get_current_price_cents env s))

-- `GET /api/price/today`
unfoldable pub get_price_today : Server → Server × Reply
get_price_today s = (s, json 200 (prices s.price_cache.prices s.price_cache.fetched_at))
