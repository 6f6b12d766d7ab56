-- ===== src/StringUtil/CheckStr.antt =====
-- `CheckStr` of src/common/string_util.cppm: the pattern of each kind of text, which no code of the repository uses.
use fast_db.Prelude.{Bytes, codes}

pub data Kind : Type 0 where
  phone tel card pwd postal qq email money url ip date number english chinese lower upper html :
      Kind

unfoldable pub check_str_type : Kind → Bytes
check_str_type phone = codes "^1[3|4|5|6|7|8|9][0-9]{9}$"
check_str_type tel = codes "^(0\\d{2,3}-\\d{7,8})(-\\d{1,4})?$"
check_str_type card = codes "(^\\d{15}$)|(^\\d{18}$)|(^\\d{17}(\\d|X|x)$)"
check_str_type pwd = codes "^[a-zA-Z]\\w{5,17}$"
check_str_type postal = codes "[1-9]\\d{5}(?!\\d)"
check_str_type qq = codes "^[1-9][0-9]{4,9}$"
check_str_type email = codes "^[\\w-]+(\\.[\\w-]+)*@[\\w-]+(\\.[\\w-]+)+$"
check_str_type money = codes "^\\d*(?:\\.\\d{0,2})?$"
check_str_type url =
    codes
      "(http|ftp|https):\\/\\/[\\w\\-_]+(\\.[\\w\\-_]+)+([\\w\\-\\.,@?^=%&:/~\\+#]*[\\w\\-\\@?^=%&/~\\+#])?"
check_str_type ip =
    codes "((?:(?:25[0-5]|2[0-4]\\d|[01]?\\d?\\d)\\.){3}(?:25[0-5]|2[0-4]\\d|[01]?\\d?\\d))"
check_str_type date =
    codes
      "^(\\d{4})\\-(\\d{2})\\-(\\d{2}) (\\d{2})(?:\\:\\d{2}|:(\\d{2}):(\\d{2}))$/.test(str) || ^(\\d{4})\\-(\\d{2})\\-(\\d{2})$"
check_str_type number = codes "^[0-9]$"
check_str_type english = codes "^[a-zA-Z]+$"
check_str_type chinese = codes "^[\\\\u4E00-\\\\u9FA5]+$"
check_str_type lower = codes "^[a-z]+$"
check_str_type upper = codes "^[A-Z]+$"
check_str_type html = codes "<(\"[^\"]*\"|'[^']*'|[^'\">])*>"
