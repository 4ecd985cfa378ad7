-- ===== src/Collect/Executor/Fields.antt =====
-- app/collect/executor.py: the fields that a request asks for, which are the business columns of the RAW
-- tables of app/storage/models/raw.py.
use quant_stock.Base.{String, Option, none, some, List, [], ◌∷◌, str_eq, if◌then◌else◌}

-- TRADE_CAL_FIELDS
abbrev pub trade_cal_fields : List String
trade_cal_fields = "exchange" ∷ "cal_date" ∷ "is_open" ∷ "pretrade_date" ∷ []

-- STOCK_BASIC_FIELDS
abbrev pub stock_basic_fields : List String
stock_basic_fields =
    "ts_code" ∷ "symbol" ∷ "name" ∷ "area" ∷ "industry" ∷ "fullname" ∷ "enname" ∷ "cnspell"
    ∷ "market" ∷ "exchange" ∷ "curr_type" ∷ "list_status" ∷ "list_date" ∷ "delist_date" ∷ "is_hs"
    ∷ "act_name" ∷ "act_ent_type" ∷ []

-- STOCK_DAILY_FIELDS
abbrev pub stock_daily_fields : List String
stock_daily_fields =
    "ts_code" ∷ "trade_date" ∷ "open" ∷ "high" ∷ "low" ∷ "close" ∷ "pre_close" ∷ "change"
    ∷ "pct_chg" ∷ "vol" ∷ "amount" ∷ "ah_vol" ∷ "ah_amount" ∷ []

-- ADJ_FACTOR_FIELDS
abbrev pub adj_factor_fields : List String
adj_factor_fields = "ts_code" ∷ "trade_date" ∷ "adj_factor" ∷ []

-- DAILY_BASIC_FIELDS
abbrev pub daily_basic_fields : List String
daily_basic_fields =
    "ts_code" ∷ "trade_date" ∷ "close" ∷ "turnover_rate" ∷ "turnover_rate_f" ∷ "volume_ratio" ∷ "pe"
    ∷ "pe_ttm" ∷ "pb" ∷ "ps" ∷ "ps_ttm" ∷ "dv_ratio" ∷ "dv_ttm" ∷ "total_share" ∷ "float_share"
    ∷ "free_share" ∷ "total_mv" ∷ "circ_mv" ∷ "limit_status" ∷ []

-- SUSPEND_D_FIELDS
abbrev pub suspend_d_fields : List String
suspend_d_fields = "ts_code" ∷ "trade_date" ∷ "suspend_timing" ∷ "suspend_type" ∷ []

-- STK_LIMIT_FIELDS
abbrev pub stk_limit_fields : List String
stk_limit_fields = "trade_date" ∷ "ts_code" ∷ "pre_close" ∷ "up_limit" ∷ "down_limit" ∷ []

-- the columns of TushareStkMins
abbrev pub stk_mins_fields : List String
stk_mins_fields =
    "ts_code" ∷ "trade_time" ∷ "open" ∷ "close" ∷ "high" ∷ "low" ∷ "vol" ∷ "amount" ∷ []

-- the columns of TushareIncome
abbrev pub income_fields : List String
income_fields =
    "ts_code" ∷ "ann_date" ∷ "f_ann_date" ∷ "end_date" ∷ "report_type" ∷ "comp_type" ∷ "end_type"
    ∷ "update_flag" ∷ "basic_eps" ∷ "diluted_eps" ∷ "total_revenue" ∷ "revenue" ∷ "int_income"
    ∷ "prem_earned" ∷ "comm_income" ∷ "n_commis_income" ∷ "n_oth_income" ∷ "n_oth_b_income"
    ∷ "prem_income" ∷ "out_prem" ∷ "une_prem_reser" ∷ "reins_income" ∷ "n_sec_tb_income"
    ∷ "n_sec_uw_income" ∷ "n_asset_mg_income" ∷ "oth_b_income" ∷ "fv_value_chg_gain"
    ∷ "invest_income" ∷ "ass_invest_income" ∷ "forex_gain" ∷ "total_cogs" ∷ "oper_cost" ∷ "int_exp"
    ∷ "comm_exp" ∷ "biz_tax_surchg" ∷ "sell_exp" ∷ "admin_exp" ∷ "fin_exp" ∷ "assets_impair_loss"
    ∷ "prem_refund" ∷ "compens_payout" ∷ "reser_insur_liab" ∷ "div_payt" ∷ "reins_exp" ∷ "oper_exp"
    ∷ "compens_payout_refu" ∷ "insur_reser_refu" ∷ "reins_cost_refund" ∷ "other_bus_cost"
    ∷ "operate_profit" ∷ "non_oper_income" ∷ "non_oper_exp" ∷ "nca_disploss" ∷ "total_profit"
    ∷ "income_tax" ∷ "n_income" ∷ "n_income_attr_p" ∷ "minority_gain" ∷ "oth_compr_income"
    ∷ "t_compr_income" ∷ "compr_inc_attr_p" ∷ "compr_inc_attr_m_s" ∷ "ebit" ∷ "ebitda"
    ∷ "insurance_exp" ∷ "undist_profit" ∷ "distable_profit" ∷ "rd_exp" ∷ "fin_exp_int_exp"
    ∷ "fin_exp_int_inc" ∷ "transfer_surplus_rese" ∷ "transfer_housing_imprest" ∷ "transfer_oth"
    ∷ "adj_lossgain" ∷ "withdra_legal_surplus" ∷ "withdra_legal_pubfund" ∷ "withdra_biz_devfund"
    ∷ "withdra_rese_fund" ∷ "withdra_oth_ersu" ∷ "workers_welfare" ∷ "distr_profit_shrhder"
    ∷ "prfshare_payable_dvd" ∷ "comshare_payable_dvd" ∷ "capit_comstock_div"
    ∷ "net_after_nr_lp_correct" ∷ "credit_impa_loss" ∷ "net_expo_hedging_benefits"
    ∷ "oth_impair_loss_assets" ∷ "total_opcost" ∷ "amodcost_fin_assets" ∷ "oth_income"
    ∷ "asset_disp_income" ∷ "continued_net_profit" ∷ "end_net_profit" ∷ []

-- the columns of TushareFinaIndicator
abbrev pub fina_indicator_fields : List String
fina_indicator_fields =
    "ts_code" ∷ "ann_date" ∷ "end_date" ∷ "update_flag" ∷ "eps" ∷ "dt_eps" ∷ "total_revenue_ps"
    ∷ "revenue_ps" ∷ "capital_rese_ps" ∷ "surplus_rese_ps" ∷ "undist_profit_ps" ∷ "extra_item"
    ∷ "profit_dedt" ∷ "gross_margin" ∷ "current_ratio" ∷ "quick_ratio" ∷ "cash_ratio"
    ∷ "invturn_days" ∷ "arturn_days" ∷ "inv_turn" ∷ "ar_turn" ∷ "ca_turn" ∷ "fa_turn"
    ∷ "assets_turn" ∷ "op_income" ∷ "valuechange_income" ∷ "interst_income" ∷ "daa" ∷ "ebit"
    ∷ "ebitda" ∷ "fcff" ∷ "fcfe" ∷ "current_exint" ∷ "noncurrent_exint" ∷ "interestdebt" ∷ "netdebt"
    ∷ "tangible_asset" ∷ "working_capital" ∷ "networking_capital" ∷ "invest_capital"
    ∷ "retained_earnings" ∷ "diluted2_eps" ∷ "bps" ∷ "ocfps" ∷ "retainedps" ∷ "cfps" ∷ "ebit_ps"
    ∷ "fcff_ps" ∷ "fcfe_ps" ∷ "netprofit_margin" ∷ "grossprofit_margin" ∷ "cogs_of_sales"
    ∷ "expense_of_sales" ∷ "profit_to_gr" ∷ "saleexp_to_gr" ∷ "adminexp_of_gr" ∷ "finaexp_of_gr"
    ∷ "impai_ttm" ∷ "gc_of_gr" ∷ "op_of_gr" ∷ "ebit_of_gr" ∷ "roe" ∷ "roe_waa" ∷ "roe_dt" ∷ "roa"
    ∷ "npta" ∷ "roic" ∷ "roe_yearly" ∷ "roa2_yearly" ∷ "roe_avg" ∷ "opincome_of_ebt"
    ∷ "investincome_of_ebt" ∷ "n_op_profit_of_ebt" ∷ "tax_to_ebt" ∷ "dtprofit_to_profit"
    ∷ "salescash_to_or" ∷ "ocf_to_or" ∷ "ocf_to_opincome" ∷ "capitalized_to_da" ∷ "debt_to_assets"
    ∷ "assets_to_eqt" ∷ "dp_assets_to_eqt" ∷ "ca_to_assets" ∷ "nca_to_assets"
    ∷ "tbassets_to_totalassets" ∷ "int_to_talcap" ∷ "eqt_to_talcapital" ∷ "currentdebt_to_debt"
    ∷ "longdeb_to_debt" ∷ "ocf_to_shortdebt" ∷ "debt_to_eqt" ∷ "eqt_to_debt" ∷ "eqt_to_interestdebt"
    ∷ "tangibleasset_to_debt" ∷ "tangasset_to_intdebt" ∷ "tangibleasset_to_netdebt" ∷ "ocf_to_debt"
    ∷ "ocf_to_interestdebt" ∷ "ocf_to_netdebt" ∷ "ebit_to_interest" ∷ "longdebt_to_workingcapital"
    ∷ "ebitda_to_debt" ∷ "turn_days" ∷ "roa_yearly" ∷ "roa_dp" ∷ "fixed_assets"
    ∷ "profit_prefin_exp" ∷ "non_op_profit" ∷ "op_to_ebt" ∷ "nop_to_ebt" ∷ "ocf_to_profit"
    ∷ "cash_to_liqdebt" ∷ "cash_to_liqdebt_withinterest" ∷ "op_to_liqdebt" ∷ "op_to_debt"
    ∷ "roic_yearly" ∷ "total_fa_trun" ∷ "profit_to_op" ∷ "q_opincome" ∷ "q_investincome"
    ∷ "q_dtprofit" ∷ "q_eps" ∷ "q_netprofit_margin" ∷ "q_gsprofit_margin" ∷ "q_exp_to_sales"
    ∷ "q_profit_to_gr" ∷ "q_saleexp_to_gr" ∷ "q_adminexp_to_gr" ∷ "q_finaexp_to_gr"
    ∷ "q_impair_to_gr_ttm" ∷ "q_gc_to_gr" ∷ "q_op_to_gr" ∷ "q_roe" ∷ "q_dt_roe" ∷ "q_npta"
    ∷ "q_opincome_to_ebt" ∷ "q_investincome_to_ebt" ∷ "q_dtprofit_to_profit" ∷ "q_salescash_to_or"
    ∷ "q_ocf_to_sales" ∷ "q_ocf_to_or" ∷ "basic_eps_yoy" ∷ "dt_eps_yoy" ∷ "cfps_yoy" ∷ "op_yoy"
    ∷ "ebt_yoy" ∷ "netprofit_yoy" ∷ "dt_netprofit_yoy" ∷ "ocf_yoy" ∷ "roe_yoy" ∷ "bps_yoy"
    ∷ "assets_yoy" ∷ "eqt_yoy" ∷ "tr_yoy" ∷ "or_yoy" ∷ "q_gr_yoy" ∷ "q_gr_qoq" ∷ "q_sales_yoy"
    ∷ "q_sales_qoq" ∷ "q_op_yoy" ∷ "q_op_qoq" ∷ "q_profit_yoy" ∷ "q_profit_qoq" ∷ "q_netprofit_yoy"
    ∷ "q_netprofit_qoq" ∷ "equity_yoy" ∷ "rd_exp" ∷ []

-- ITEM_FIELDS.get(code); ITEM_MODELS has the same keys
unfoldable pub item_fields : String → Option (List String)
item_fields code =
    if str_eq code "trade_calendar"
    then some trade_cal_fields
    else if str_eq code "stock_basic"
    then some stock_basic_fields
    else if str_eq code "stock_daily"
    then some stock_daily_fields
    else if str_eq code "stock_adj_factor"
    then some adj_factor_fields
    else if str_eq code "stock_daily_basic"
    then some daily_basic_fields
    else if str_eq code "stock_suspend"
    then some suspend_d_fields
    else if str_eq code "stock_limit_price"
    then some stk_limit_fields
    else if str_eq code "stock_minute"
    then some stk_mins_fields
    else if str_eq code "financial_income"
    then some income_fields
    else if str_eq code "financial_indicator"
    then some fina_indicator_fields
    else none
