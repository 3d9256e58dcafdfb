-- ===== src/Report/Request.antt =====
-- What a report is asked for (enums/report.enum.ts, interfaces/report.interfaces.ts).
use whisky_scrapper_node.Prelude.{ℕ, String, Option, Bool, List}
use whisky_scrapper_node.Report.Page.{ReportSortField, SortOrder}

pub data ReportKind : Type 0 where
  best catalog drops low new : ReportKind

pub data ReportWindow : Type 0 where
  today yesterday week month year : ReportWindow

pub record ReportOptions : Type 0 where
  pub window : ReportWindow
  pub discount_window : Option ReportWindow
  pub min_discount : Option ℕ
  pub sort : Option ReportSortField
  pub order : SortOrder
  pub page : ℕ
  pub per_page : ℕ

pub record ReportFilter : Type 0 where
  pub stores : Option (List String)
  pub min_price : Option ℕ
  pub max_price : Option ℕ
  pub min_volume : Option ℕ
  pub max_volume : Option ℕ
  pub flavors : Option (List String)
  pub exclude_flavors : Option (List String)
  pub types : Option (List String)
  pub countries : Option (List String)
  pub name : Option String
  pub regions : Option (List String)
  pub exclude_regions : Option (List String)
  pub verified_facts : Option Bool
