-- ===== src/Timestamps/Known.antt =====
-- The patterns that `TimestampPattern::init` sets up.
use clp_core.Base.{List, [], ◌∷◌, codes}
use clp_core.Timestamps.{TimestampPattern}

unfoldable pub known_ts_patterns : List TimestampPattern
known_ts_patterns =
    record { num_spaces_before_ts = 0; format = codes "%Y-%m-%dT%H:%M:%S.%3" }
    ∷ record { num_spaces_before_ts = 0; format = codes "%Y-%m-%dT%H:%M:%S,%3" }
    ∷ record { num_spaces_before_ts = 0; format = codes "[%Y-%m-%dT%H:%M:%S" }
    ∷ record { num_spaces_before_ts = 0; format = codes "[%Y%m%d-%H:%M:%S]" }
    ∷ record { num_spaces_before_ts = 0; format = codes "%Y-%m-%d %H:%M:%S,%3" }
    ∷ record { num_spaces_before_ts = 0; format = codes "%Y-%m-%d %H:%M:%S.%3" }
    ∷ record { num_spaces_before_ts = 0; format = codes "[%Y-%m-%d %H:%M:%S,%3]" }
    ∷ record { num_spaces_before_ts = 0; format = codes "%Y-%m-%d %H:%M:%S" }
    ∷ record { num_spaces_before_ts = 1; format = codes "%Y-%m-%d  %H:%M:%S" }
    ∷ record { num_spaces_before_ts = 0; format = codes "%Y/%m/%d %H:%M:%S" }
    ∷ record { num_spaces_before_ts = 0; format = codes "%y/%m/%d %H:%M:%S" }
    ∷ record { num_spaces_before_ts = 0; format = codes "%y%m%d %k:%M:%S" }
    ∷ record { num_spaces_before_ts = 0; format = codes "%d %b %Y %H:%M:%S,%3" }
    ∷ record { num_spaces_before_ts = 0; format = codes "%b %d, %Y %l:%M:%S %p" }
    ∷ record { num_spaces_before_ts = 0; format = codes "%B %d, %Y %H:%M" }
    ∷ record { num_spaces_before_ts = 1; format = codes "[%d/%b/%Y:%H:%M:%S" }
    ∷ record { num_spaces_before_ts = 3; format = codes "[%d/%b/%Y:%H:%M:%S" }
    ∷ record { num_spaces_before_ts = 3; format = codes "[%d/%m/%Y:%H:%M:%S" }
    ∷ record { num_spaces_before_ts = 2; format = codes "%Y-%m-%d %H:%M:%S,%3" }
    ∷ record { num_spaces_before_ts = 6; format = codes "%Y-%m-%d %H:%M:%S" }
    ∷ record { num_spaces_before_ts = 1; format = codes "%Y-%m-%d %H:%M:%S" }
    ∷ record { num_spaces_before_ts = 4; format = codes "%a %b %e %H:%M:%S %Y" }
    ∷ record { num_spaces_before_ts = 0; format = codes "<<<%Y-%m-%d %H:%M:%S:%3" }
    ∷ record { num_spaces_before_ts = 0; format = codes "%b %d %H:%M:%S" }
    ∷ []
