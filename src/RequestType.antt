-- ===== src/RequestType.antt =====
-- include/bius/request_type.h and map_type.h: the kinds of a request, with the numbers that the
-- kernel and user space exchange, and the predicates on them. `CONFIG_ZONE_DESC_EXT` is off.
use bius.Base.{Bool, ◌≡◌, ℕ, false, ◌==◌, if◌then◌else◌, true, refl}
use Prim.Native.Nat.{ℕ}

pub data BiusReq : Type 0 where
  create connect read write discard ioctl flush report_zones : BiusReq
  zone_open zone_close zone_finish zone_append zone_reset zone_reset_all : BiusReq
  -- A value of the enumeration that has no name.
  unnamed : ℕ → BiusReq

unfoldable pub value : BiusReq → ℕ
value create = 0
value connect = 1
value read = 2
value write = 3
value discard = 4
value ioctl = 5
value flush = 6
value report_zones = 9
value zone_open = 10
value zone_close = 11
value zone_finish = 12
value zone_append = 13
value zone_reset = 15
value zone_reset_all = 17
value (unnamed n) = n

-- The conversion of a number to `bius_req_t`.
unfoldable pub of_value : ℕ → BiusReq
of_value n =
    if n == 0
    then create
    else (if n == 1
        then connect
        else (if n == 2
            then read
            else (if n == 3
                then write
                else (if n == 4
                    then discard
                    else (if n == 5
                        then ioctl
                        else (if n == 6
                            then flush
                            else (if n == 9
                                then report_zones
                                else (if n == 10
                                    then zone_open
                                    else (if n == 11
                                        then zone_close
                                        else (if n == 12
                                            then zone_finish
                                            else (if n == 13
                                                then zone_append
                                                else (if n == 15
                                                    then zone_reset
                                                    else (if n == 17
                                                        then zone_reset_all
                                                        else unnamed n)))))))))))))

-- `(bius_req_t)-1`.
abbrev pub invalid_op : BiusReq
invalid_op = unnamed 4294967295

abbrev pub is_invalid : BiusReq → Bool
is_invalid (unnamed n) = n == 4294967295
is_invalid _ = false

abbrev pub is_blk_request : BiusReq → Bool
is_blk_request report_zones = false
is_blk_request _ = true

abbrev pub request_may_have_data : BiusReq → Bool
request_may_have_data read = true
request_may_have_data write = true
request_may_have_data zone_append = true
request_may_have_data _ = false

abbrev pub request_is_write : BiusReq → Bool
request_is_write write = true
request_is_write zone_append = true
request_is_write _ = false

pub is_write-may_have_data :
    (t : BiusReq) → request_is_write t ≡ true → request_may_have_data t ≡ true
is_write-may_have_data write h = refl
is_write-may_have_data zone_append h = refl
is_write-may_have_data _ h = absurd (cc)

pub is_write-is_blk_request : (t : BiusReq) → request_is_write t ≡ true → is_blk_request t ≡ true
is_write-is_blk_request write h = refl
is_write-is_blk_request zone_append h = refl
is_write-is_blk_request _ h = absurd (cc)

pub data MapType : Type 0 where
  unmapped simple list : MapType

abbrev pub HasName : BiusReq → Type 0
HasName (unnamed n) = ⊥
HasName _ = Unit {0}

-- Converting the number of a kind back gives the kind, for the kinds that have a name.
pub of_value-value : (t : BiusReq) → HasName t → of_value (value t) ≡ t
unfolding of_value value
of_value-value (unnamed n) h = absurd h
of_value-value _ h = refl
