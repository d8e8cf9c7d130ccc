-- ===== src/Collection/Tests.antt =====
-- Fetches of small URLs, and the theorem at one of them.
use middle_east_geopolitic.Common.{
  List, All, String, refl, ◌≡◌, ◌∷◌, str_eq, some, [], if◌then◌else◌, true, false, ℕ,
}
use middle_east_geopolitic.Collection.Fetcher.Safety.{fetch_url-IsSafe, IsSafe}
use middle_east_geopolitic.Collection.Fetcher.{
  read_body, accept, check_addresses, response, redirect, validate_url_security, follow, Reply, Url,
  Resolver, fetch_url, Address,
}
use middle_east_geopolitic.Common.Result.{ok, fetch, unsupported_url, err}
use middle_east_geopolitic.Collection.Chunks.Partition.{chunk_text-partition, IsChunk, concat}
use middle_east_geopolitic.Collection.Chunks.{
  take_paragraph, chunk_paragraphs, joined_size, chunk_text,
}

abbrev page : Url
page = record { scheme = "https"; hostname = some "example.org"; rest = "/" }

abbrev inside : Url
inside = record { scheme = "http"; hostname = some "localhost"; rest = "/admin" }

abbrev public_address : Address
public_address = record {
  is_private = false;
  is_loopback = false;
  is_link_local = false;
  is_reserved = false;
  is_multicast = false;
  is_unspecified = false;
}

abbrev loopback : Address
loopback = record {
  is_private = true;
  is_loopback = true;
  is_link_local = false;
  is_reserved = false;
  is_multicast = false;
  is_unspecified = false;
}

abbrev resolve : Resolver
resolve h = if str_eq h "localhost" then some (loopback ∷ []) else some (public_address ∷ [])

-- The first answer sends the collector to an internal host.
abbrev server : ℕ → Url → Reply
server left u = redirect (some inside)

stopped : fetch_url [] resolve server page ≡ (err unsupported_url, page ∷ [])
unfolding fetch_url follow validate_url_security check_addresses
stopped = refl

-- A server that redirects to itself for ever.
looped : (fetch_url [] resolve (λ left u. redirect (some page)) page).0 ≡ err fetch
unfolding fetch_url follow validate_url_security check_addresses
looped = refl

abbrev plain : ℕ → Url → Reply
plain left u = response 200 "text/html" ((104 ∷ 105 ∷ []) ∷ [])

fetched :
    (fetch_url [] resolve plain page).0
    ≡ ok (record {
      url = page;
      status_code = 200;
      content_type = "text/html";
      body = 104 ∷ 105 ∷ [];
    })
unfolding fetch_url follow validate_url_security check_addresses accept read_body
fetched = refl

fetch_url-IsSafe_example : IsSafe [] resolve 6 (fetch_url [] resolve plain page)
fetch_url-IsSafe_example = fetch_url-IsSafe [] resolve plain page

-- Sizes of three paragraphs, and a text that is made of them.
abbrev size : String → ℕ
size p = if str_eq p "long" then 50 else 10

abbrev paragraphs : String → List String
paragraphs text = "a" ∷ "b" ∷ "long" ∷ []

chunks_of_text :
    chunk_text size paragraphs 25 "a, b and long" ≡ ("a" ∷ "b" ∷ []) ∷ ("long" ∷ []) ∷ []
unfolding chunk_text chunk_paragraphs take_paragraph
chunks_of_text = refl

-- A paragraph over the limit is a chunk over the limit.
oversized : joined_size size ("long" ∷ []) ≡ 50
oversized = refl

chunk_text-partition_example :
    (concat (chunk_text size paragraphs 25 "a, b and long") ≡ "a" ∷ "b" ∷ "long" ∷ [])
    × All (IsChunk size 25) (chunk_text size paragraphs 25 "a, b and long")
chunk_text-partition_example =
    chunk_text-partition size paragraphs 25 "a, b and long" "a" ("b" ∷ "long" ∷ []) refl refl
