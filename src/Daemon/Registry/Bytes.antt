-- ===== src/Daemon/Registry/Bytes.antt =====
-- Buffers of bytes, and the sizes of the structures of mobicore/common/MobiCore/inc/mcContainer.h
-- and mcSo.h, all of 32-bit words and bytes.
use android_hardware_samsung.Common.{
  ℕ, zero, suc, ◌+◌, ◌%◌, ◌^◌, ◌*◌, Bool, true, false, ◌&&◌, ◌||◌, List, [], ◌∷◌, get_or, take,
  drop, ltb, ◌==◌, if◌then◌else◌,
}

-- The `uint32_t` at an offset, its low byte first.
unfoldable pub word_at : ℕ → List ℕ → ℕ
word_at i bytes =
    get_or bytes i 0
    + 256 * (get_or bytes (i + 1) 0 + 256 * (get_or bytes (i + 2) 0 + 256 * get_or bytes (i + 3) 0))

abbrev pub same_bytes : List ℕ → List ℕ → Bool
same_bytes [] [] = true
same_bytes (x ∷ xs) (y ∷ ys) = x == y && same_bytes xs ys
same_bytes _ _ = false

-- sizeof(mcSoHeader_t)
abbrev pub so_header_size : ℕ
so_header_size = 44

-- MC_SO_SIZE, with MC_SO22_HASH_SIZE and MC_SO22_RND_SIZE; the sum of the lengths wraps.
unfoldable pub so_size : ℕ → ℕ → ℕ
so_size plain_len encrypted_len =
    let sum = (plain_len + encrypted_len) % 2 ^ 32 in
    if ltb sum encrypted_len || ltb 1000000 sum then 0 else so_header_size + sum + 32 + 16

-- sizeof of mcSoAuthTokenCont_t, mcSoRootCont_t, mcSoSpCont_t, mcSoTltCont_2_0_t,
-- mcSoTltCont_2_1_t and mcSoDataCont_t: the header, the container, its hash and padding.
abbrev pub auth_token_size : ℕ
auth_token_size = 44 + 60 + 48

abbrev pub root_size : ℕ
root_size = 44 + 128 + 48

abbrev pub sp_size : ℕ
sp_size = 44 + 304 + 48

abbrev pub tl_2_0_size : ℕ
tl_2_0_size = 44 + 64 + 48

abbrev pub tl_2_1_size : ℕ
tl_2_1_size = 44 + 100 + 48

abbrev pub data_size : ℕ
data_size = 44 + 2076 + 48

-- sizeof(mcBlobLenInfo_t)
abbrev pub blob_len_info_size : ℕ
blob_len_info_size = 32

-- MAX_SO_CONT_SIZE and MAX_TL_SIZE
abbrev pub max_so_cont_size : ℕ
max_so_cont_size = 512

abbrev pub max_tl_size : ℕ
max_tl_size = 1024 * 1024

-- `cont.children` of a root container: 16 service providers.
abbrev pub words_from : ℕ → ℕ → List ℕ → List ℕ
words_from zero i bytes = []
words_from (suc n) i bytes = word_at i bytes ∷ words_from n (i + 4) bytes

unfoldable pub root_children : List ℕ → List ℕ
root_children bytes = words_from 16 76 bytes

-- `cont.children` of a service provider's container: 16 trustlets.
abbrev pub uuids_from : ℕ → List ℕ → List (List ℕ)
uuids_from zero bytes = []
uuids_from (suc n) bytes = take 16 bytes ∷ uuids_from n (drop 16 bytes)

unfoldable pub sp_children : List ℕ → List (List ℕ)
sp_children bytes = uuids_from 16 (drop 60 bytes)
