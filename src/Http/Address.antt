-- ===== src/Http/Address.antt =====
-- src/transport/HttpServer.ts: the client address that the rate limiter goes by.
use live_r.Base.{ℕ, Bool, ◌||◌, ◌&&◌, [], ◌∷◌, ◌++◌, if◌then◌else◌, leb, nat_beq}
use live_r.Base.Text.{Str, codes, before}

-- The white space that `trim` takes off.
is_space : ℕ → Bool
is_space c =
    (leb 9 c && leb c 13)
    || (nat_beq c 32
        || (nat_beq c 160
            || (nat_beq c 5760
                || ((leb 8192 c && leb c 8202)
                    || (nat_beq c 8232
                        || (nat_beq c 8233
                            || (nat_beq c 8239
                                || (nat_beq c 8287 || (nat_beq c 12288 || nat_beq c 65279)))))))))

trim_start : Str → Str
unfolding is_space
trim_start [] = []
trim_start (c ∷ s) = let rest = trim_start s in if is_space c then rest else c ∷ s

trim_end : Str → Str
unfolding is_space
trim_end [] = []
trim_end (c ∷ s) = elim (trim_end s) [ [] ↦ if is_space c then [] else c ∷ [] | d ∷ t ↦ c ∷ d ∷ t ]

-- extractIp: the first of the forwarded addresses.
unfoldable pub extract_ip : Str → Str
unfolding trim_start trim_end
extract_ip [] = codes "unknown"
extract_ip (c ∷ forwarded) = trim_end (trim_start (before b',' (c ∷ forwarded)))

-- `http:${ip}`
unfoldable pub limit_identifier : Str → Str
unfolding extract_ip
limit_identifier forwarded = codes "http:" ++ extract_ip forwarded
