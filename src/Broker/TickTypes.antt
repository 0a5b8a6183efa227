-- ===== src/Broker/TickTypes.antt =====
-- The names of the broker's types of ticks (ib/tick_types.hpp), with those of version 966 of its API.
use atp.Common.{List, [], ◌∷◌}
use atp.Common.Text.{Str, codes}

-- TickTypeNames
abbrev pub tick_type_names : List Str
tick_type_names =
    codes "BID_SIZE"
    ∷ codes "BID"
    ∷ codes "ASK"
    ∷ codes "ASK_SIZE"
    ∷ codes "LAST"
    ∷ codes "LAST_SIZE"
    ∷ codes "HIGH"
    ∷ codes "LOW"
    ∷ codes "VOLUME"
    ∷ codes "CLOSE"
    ∷ codes "BID_OPTION_COMPUTATION"
    ∷ codes "ASK_OPTION_COMPUTATION"
    ∷ codes "LAST_OPTION_COMPUTATION"
    ∷ codes "MODEL_OPTION"
    ∷ codes "OPEN"
    ∷ codes "LOW_13_WEEK"
    ∷ codes "HIGH_13_WEEK"
    ∷ codes "LOW_26_WEEK"
    ∷ codes "HIGH_26_WEEK"
    ∷ codes "LOW_52_WEEK"
    ∷ codes "HIGH_52_WEEK"
    ∷ codes "AVG_VOLUME"
    ∷ codes "OPEN_INTEREST"
    ∷ codes "OPTION_HISTORICAL_VOL"
    ∷ codes "OPTION_IMPLIED_VOL"
    ∷ codes "OPTION_BID_EXCH"
    ∷ codes "OPTION_ASK_EXCH"
    ∷ codes "OPTION_CALL_OPEN_INTEREST"
    ∷ codes "OPTION_PUT_OPEN_INTEREST"
    ∷ codes "OPTION_CALL_VOLUME"
    ∷ codes "OPTION_PUT_VOLUME"
    ∷ codes "INDEX_FUTURE_PREMIUM"
    ∷ codes "BID_EXCH"
    ∷ codes "ASK_EXCH"
    ∷ codes "AUCTION_VOLUME"
    ∷ codes "AUCTION_PRICE"
    ∷ codes "AUCTION_IMBALANCE"
    ∷ codes "MARK_PRICE"
    ∷ codes "BID_EFP_COMPUTATION"
    ∷ codes "ASK_EFP_COMPUTATION"
    ∷ codes "LAST_EFP_COMPUTATION"
    ∷ codes "OPEN_EFP_COMPUTATION"
    ∷ codes "HIGH_EFP_COMPUTATION"
    ∷ codes "LOW_EFP_COMPUTATION"
    ∷ codes "CLOSE_EFP_COMPUTATION"
    ∷ codes "LAST_TIMESTAMP"
    ∷ codes "SHORTABLE"
    ∷ codes "FUNDAMENTAL_RATIOS"
    ∷ codes "RT_VOLUME"
    ∷ codes "HALTED"
    ∷ codes "BID_YIELD"
    ∷ codes "ASK_YIELD"
    ∷ codes "LAST_YIELD"
    ∷ codes "CUST_OPTION_COMPUTATION"
    ∷ codes "TRADE_COUNT"
    ∷ codes "TRADE_RATE"
    ∷ codes "VOLUME_RATE"
    ∷ codes "LAST_RTH_TRADE"
    ∷ codes "NOT_SET"
    ∷ []
