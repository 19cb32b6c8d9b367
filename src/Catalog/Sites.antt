-- ===== src/Catalog/Sites.antt =====
-- The entries of `Targets` in launcher/internal/catalog/catalog.go that are one WAR project each,
-- after portal.
use egovframe_launcher.Base.{◌<>◌, [], ◌∷◌}
use egovframe_launcher.Catalog.Types.{Target, account, mvn, base, tier1}

-- enterprise-business
unfoldable pub enterprise_business : Target
enterprise_business = record {
  id = "enterprise-business";
  display_name = "내부업무 시스템 템플릿 (WAR)";
  category = "일반 템플릿";
  repo_url = base <> "egovframe-enterprise-business-template";
  branch = "";
  tier = tier1;
  prereqs = "git" ∷ "mvn" ∷ [];
  port = 8094;
  open_path = "/";
  build = (mvn ("-B" ∷ "-DskipTests" ∷ "package" ∷ [])) ∷ [];
  run = [];
  note = "WAR. Tomcat 10.1+ 배포.";
  deploy_type = "war";
  backend_id = "";
  run_env = [];
  accounts = (account "관리자" "admin" "1") ∷ (account "유저1" "user1" "1") ∷ [];
}

-- homepage
unfoldable pub homepage : Target
homepage = record {
  id = "homepage";
  display_name = "심플 홈페이지 템플릿 (WAR)";
  category = "일반 템플릿";
  repo_url = base <> "egovframe-simple-homepage-template";
  branch = "";
  tier = tier1;
  prereqs = "git" ∷ "mvn" ∷ [];
  port = 8095;
  open_path = "/";
  build = (mvn ("-B" ∷ "-DskipTests" ∷ "package" ∷ [])) ∷ [];
  run = [];
  note = "WAR. Tomcat 10.1+ 배포.";
  deploy_type = "war";
  backend_id = "";
  run_env = [];
  accounts = (account "관리자" "admin" "1") ∷ [];
}

-- common-components
unfoldable pub common_components : Target
common_components = record {
  id = "common-components";
  display_name = "공통컴포넌트 (WAR)";
  category = "공통컴포넌트 & MSA";
  repo_url = base <> "egovframe-common-components";
  branch = "";
  tier = tier1;
  prereqs = "git" ∷ "mvn" ∷ [];
  port = 8096;
  open_path = "/";
  build = (mvn ("-B" ∷ "-DskipTests" ∷ "package" ∷ [])) ∷ [];
  run = [];
  note = "WAR. Tomcat 10.1+ 배포.";
  deploy_type = "war";
  backend_id = "";
  run_env = [];
  accounts =
      (account "업무사용자" "TEST1" "rhdxhd12")
      ∷ (account "웹마스터" "webmaster" "rhdxhd12")
      ∷ (account "일반회원" "USER" "rhdxhd12")
      ∷ (account "기업회원" "ENTERPRISE" "rhdxhd12")
      ∷ [];
}
